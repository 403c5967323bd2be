-- ===== src/Msg.antt =====
-- platform/os/linux/base/os_msg.c: messages between tasks, through the queue of the receiver.
pub mod Delivery
pub mod Failure
pub mod System
pub mod Ordered
pub mod Order
use multi_task_app.Prelude.{
  ℕ, ◌+◌, ◌==◌, if◌then◌else◌, length, Option, none, some, List, [], String,
}
use multi_task_app.Alloc.{Allocator}
use multi_task_app.Task.{Task, os_task_aq_get, os_task_aq_self, os_task_name_get_from_tid}
use multi_task_app.AsyncQueue.{
  AsyncQueue, os_async_queue_push, os_async_queue_pop_wait, os_async_queue_pop_resume,
}

-- os_msg_t: `bytes` are the `size` bytes of the field `data`.
pub record Msg : Type 0 where
  pub src : Option String
  pub dst : String
  pub priority : ℕ
  pub bytes : List ℕ

-- What the functions return: 0, or -1.
pub data Status : Type 0 where
  success failure : Status

-- The memory that the functions reach: the task list, the queue and the message at each address,
-- the plain bytes at each address, and the allocator's store.
pub record Net (S : Type 0) : Type 0 where
  pub tasks : List Task
  pub queues : ℕ → Option AsyncQueue
  pub msgs : ℕ → Msg
  pub buffers : ℕ → List ℕ
  pub store : S

unfoldable pub update {ℓ} : {C : Type ℓ} (memory : ℕ → C) (at : ℕ) (cell : C) → ℕ → C
update memory at cell x = if x == at then cell else memory x

-- sizeof(os_msg_t) without its flexible array, on a 64-bit target.
abbrev pub msg_size : ℕ
msg_size = 24

module _ (m : Allocator) where
  open m use {Store, malloc, free}

  -- os_async_queue_push on the queue at `q`; the signal prefers thread `t`.
  unfoldable pub push_at : ℕ → ℕ → ℕ → Net Store → Net Store
  push_at t q msg n =
      let (queue, store) = os_async_queue_push m t (n.queues q) msg n.store in
      record n { queues = update n.queues q queue; store = store }

  unfoldable pub os_msg_send : ℕ → ℕ → Net Store → Status × Net Store
  unfolding push_at
  os_msg_send t msg n =
      let q = os_task_aq_get (n.msgs msg).dst n.tasks in
      if msg == 0
      then (failure, n)
      else if q == 0
      then (failure, n)
      else (success, push_at t q msg n)

  send_filled : ℕ → String → ℕ × Net Store → Status × Net Store
  unfolding push_at
  send_filled t dst (msg, n) =
      let q = os_task_aq_get dst n.tasks in
      if q == 0
      then (failure, record n { store = free msg n.store })
      else (success, push_at t q msg n)

  -- The message that os_msg_send2 fills in: `self` is the calling thread.
  fill : ℕ → String → ℕ → List ℕ → ℕ → Net Store → ℕ × Net Store
  fill self dst priority bytes msg n =
      let src = os_task_name_get_from_tid self n.tasks in
      let filled : Msg = record { src = src; dst = dst; priority = priority; bytes = bytes } in
      (msg, record n { msgs = update n.msgs msg filled })

  -- `bytes` are the `size` bytes at `data`; `dst` is `none` for NULL.
  unfoldable pub os_msg_send2 : ℕ → ℕ → Option String → ℕ → List ℕ → Net Store → Status × Net Store
  unfolding send_filled fill
  os_msg_send2 t self none priority bytes n = (failure, n)
  os_msg_send2 t self (some dst) priority bytes n =
      let (msg, store) = malloc (msg_size + length bytes) n.store in
      if msg == 0
      then (failure, record n { store = store })
      else send_filled t dst (fill self dst priority bytes msg (record n { store = store }))

  -- os_msg_recv and os_msg_recv2 up to the wait in os_async_queue_pop: `failure` if
  -- no queue belongs to the calling thread, in which case the call returns NULL at once.
  unfoldable pub os_msg_recv_wait : ℕ → Net Store → Status × Net Store
  os_msg_recv_wait self n =
      let q = os_task_aq_self self n.tasks in
      if q == 0 then (failure, n) else (
        success,
        record n { queues = update n.queues q (os_async_queue_pop_wait (n.queues q) self) },
      )

  -- os_msg_recv after the wait: the address of the message, or NULL.
  unfoldable pub os_msg_recv_resume : ℕ → Net Store → ℕ × Net Store
  os_msg_recv_resume self n =
      let q = os_task_aq_self self n.tasks in
      let (msg, queue, store) = os_async_queue_pop_resume m (n.queues q) self n.store in
      if q == 0 then (0, n) else (msg, record n { queues = update n.queues q queue; store = store })

  copy_out : ℕ × Net Store → ℕ × ℕ × Net Store
  copy_out (msg, n) =
      let bytes = (n.msgs msg).bytes in
      let (buf, store) = malloc (length bytes) n.store in
      if msg == 0
      then (0, 0, n)
      else if buf == 0
      then (0, 0, record n { store = free msg store })
      else (
        buf,
        length bytes,
        record n { buffers = update n.buffers buf bytes; store = free msg store },
      )

  -- os_msg_recv2 after the wait: the address of the copy and the size written to `p_size`.
  unfoldable pub os_msg_recv2_resume : ℕ → Net Store → ℕ × ℕ × Net Store
  unfolding copy_out
  os_msg_recv2_resume self n = copy_out (os_msg_recv_resume self n)
