-- ===== src/Msg/Delivery.antt =====
-- Messages of os_msg.c that arrive.
use multi_task_app.Prelude.{
  ℕ, ◌+◌, ◌≡◌, ◌≢◌, refl, ◌∙◌, ap, ◌==◌, bit, false, length, some, List, [], ◌∷◌, ◌++◌, String,
  arith,
}
use multi_task_app.Alloc.{Allocator, malloc_check}
use multi_task_app.Queue.{queue_size, os_queue_push_tail, os_queue_pop_head}
use multi_task_app.Task.{os_task_aq_get, os_task_aq_self, os_task_name_get_from_tid}
use multi_task_app.AsyncQueue.{AsyncQueue, os_async_queue_push, os_async_queue_pop_resume}
use multi_task_app.AsyncQueue.System.{pushes}
use multi_task_app.AsyncQueue.Fifo.{held, pushed_by, push-held}
use multi_task_app.Msg.{
  Msg, Net, success, update, msg_size, push_at, os_msg_send, os_msg_send2, os_msg_recv_resume,
  os_msg_recv2_resume, copy_out,
}

pub nonzero_test : (p : ℕ) → p ≢ 0 → (p == 0) ≡ false
nonzero_test p h = ground (arith, h)

pub update_self {ℓ} : {A : Type ℓ} (f : ℕ → A) (p : ℕ) (v : A) → update f p v p ≡ v
unfolding update
update_self f p v = ground arith

pub update_ne {ℓ} : {A : Type ℓ} (f : ℕ → A) (p : ℕ) (v : A) (x : ℕ) → x ≢ p → update f p v x ≡ f x
unfolding update
update_ne f p v x h = ground (arith, h)

pub pushed_self : (t d : ℕ) → d ≢ 0 → pushed_by (pushes t d) ≡ d ∷ []
pushed_self t d h = rw (nonzero_test d h)

module _ (m : Allocator) where
  open m use {Store, blocks, malloc}

  -- os_msg_send of a message to a name that a task with a queue has succeeds: the message goes to
  -- the end of that task's queue, and every other queue, the tasks and the messages are as they
  -- were.
  pub send_enqueues :
      (t msg p : ℕ) (n : Net Store) (xs : List ℕ)
      → let q = os_task_aq_get (n.msgs msg).dst n.tasks in
        msg ≢ 0
        → q ≢ 0
        → p ≢ q
        → held (n.queues q) ≡ some xs
        → let (status, n') = os_msg_send m t msg n in
          (status ≡ success)
          × (held (n'.queues q) ≡ some (xs ++ msg ∷ []))
          × (n'.queues p ≡ n.queues p)
          × (n'.tasks ≡ n.tasks)
          × (n'.msgs ≡ n.msgs)
  unfolding os_msg_send
  send_enqueues t msg p n xs hm hq k h =
      let q = os_task_aq_get (n.msgs msg).dst n.tasks in
      let queue = (os_async_queue_push m t (n.queues q) msg n.store).0 in
      rw (nonzero_test msg hm, nonzero_test q hq)
        (
          refl,
          ap held (update_self n.queues q queue)
              ∙ push-held m t msg (n.queues q) n.store xs h
              ∙ ap (λ l. some (xs ++ l)) (pushed_self t msg hm),
          update_ne n.queues q queue p k,
          refl,
          refl,
        )

  -- A queue of the task whose list is empty.
  abbrev pub emptied : ℕ → AsyncQueue → AsyncQueue
  emptied a k = record k { queue = some (record { addr = a; nodes = [] }) }

  pub push-pop :
      (t u a msg : ℕ) (k : AsyncQueue) (s : Store)
      → msg ≢ 0
      → let (k', s') = os_async_queue_push m t (some (emptied a k)) msg s in
        let (r, _, s'') = os_async_queue_pop_resume m k' u s' in
        (r ≡ msg) × (s'' ≡ m.free (malloc queue_size s).0 (malloc queue_size s).1)
  unfolding os_async_queue_push os_async_queue_pop_resume os_queue_push_tail os_queue_pop_head
  push-pop t u a msg k s h = rw (nonzero_test msg h, malloc_check m queue_size s) (refl, refl)

  pub os_msg_send2_lem :
      (t self priority : ℕ) (dst : String) (bytes : List ℕ) (n : Net Store)
      → os_task_aq_get dst n.tasks ≢ 0
      → let (msg, store) = malloc (msg_size + length bytes) n.store in
        os_msg_send2 m t self (some dst) priority bytes n ≡ (
          success,
          push_at m t (os_task_aq_get dst n.tasks) msg (record n {
            msgs = update n.msgs msg (record {
              src = os_task_name_get_from_tid self n.tasks;
              dst = dst;
              priority = priority;
              bytes = bytes;
            });
            store = store;
          }),
        )
  unfolding os_msg_send2
  os_msg_send2_lem t self priority dst bytes n h =
      rw (malloc_check m (msg_size + length bytes) n.store)
        (rw (nonzero_test (os_task_aq_get dst n.tasks) h) refl)

  pub recv_pushed :
      (t u q msg a : ℕ) (k : AsyncQueue) (n : Net Store)
      → os_task_aq_self u n.tasks ≡ q
      → q ≢ 0
      → msg ≢ 0
      → n.queues q ≡ some (emptied a k)
      → let (node, s') = malloc queue_size n.store in
        let (r, n') = os_msg_recv_resume m u (push_at m t q msg n) in
        (r ≡ msg) × (n'.store ≡ m.free node s') × (n'.msgs ≡ n.msgs)
  unfolding os_msg_recv_resume push_at
  recv_pushed t u q msg a k n eq hq hm e =
      let (r, s) = push-pop t u a msg k n.store hm in
      rw (eq, nonzero_test q hq, update_self n.queues q _, e) (r, s, refl)

  copied :
      (msg r : ℕ) (n : Net Store) (bytes : List ℕ) (s : Store)
      → msg ≢ 0
      → r ≡ msg
      → n.store ≡ s
      → (n.msgs r).bytes ≡ bytes
      → let (buf, s') = malloc (length bytes) s in
        let (p, size, end) = copy_out m (r, n) in
        (p ≡ buf) × (size ≡ length bytes) × (end.buffers buf ≡ bytes) × (end.store ≡ m.free msg s')
  unfolding copy_out
  copied msg r n bytes s h e es eb =
      let nonnull : (r == 0) ≡ false = ground (arith, h, e) in
      rw (nonnull, eb, es)
        (rw (malloc_check m (length bytes) s) (
          refl,
          refl,
          update_self n.buffers _ bytes,
          ap (λ x. m.free x (malloc (length bytes) s).1) e,
        ))

  recv2_pushed :
      (t u q msg a : ℕ) (bytes : List ℕ) (k : AsyncQueue) (n : Net Store)
      → os_task_aq_self u n.tasks ≡ q
      → q ≢ 0
      → msg ≢ 0
      → n.queues q ≡ some (emptied a k)
      → (n.msgs msg).bytes ≡ bytes
      → let (node, s') = malloc queue_size n.store in
        let (buf, s'') = malloc (length bytes) (m.free node s') in
        let (p, size, end) = os_msg_recv2_resume m u (push_at m t q msg n) in
        (p ≡ buf) × (size ≡ length bytes) × (end.buffers buf ≡ bytes) × (end.store ≡ m.free msg s'')
  unfolding os_msg_recv2_resume
  recv2_pushed t u q msg a bytes k n eq hq hm e eb =
      let (msg', n') = os_msg_recv_resume m u (push_at m t q msg n) in
      let (r, s, ms) = recv_pushed t u q msg a k n eq hq hm e in
      copied msg msg' n' bytes _ hm r s ((λ i. (ms i (r i)).bytes) ∙ eb)

  -- What os_msg_send2 sends, os_msg_recv2 receives: a message sent to a task whose queue is empty
  -- is sent with success, and the call of os_msg_recv2 that resumes next on that task's thread
  -- returns a copy with the size and the bytes sent. The message and its node are freed: at each
  -- address there are as many live blocks as before, and the copy's.
  pub send2_recv2 :
      (t self u a priority : ℕ) (dst : String) (bytes : List ℕ) (k : AsyncQueue) (n : Net Store)
      → let q = os_task_aq_get dst n.tasks in
        q ≢ 0
        → os_task_aq_self u n.tasks ≡ q
        → n.queues q ≡ some (emptied a k)
        → let (status, sent) = os_msg_send2 m t self (some dst) priority bytes n in
          let (p, size, end) = os_msg_recv2_resume m u sent in
          (status ≡ success)
          × (p ≢ 0)
          × (size ≡ length bytes)
          × (end.buffers p ≡ bytes)
          × ((x : ℕ) → blocks end.store x ≡ blocks n.store x + bit (p == x))
  send2_recv2 t self u a priority dst bytes k n hq eq e =
      let size = msg_size + length bytes in
      let (msg, s) = malloc size n.store in
      let (node, s') = malloc queue_size s in
      let (buf, s'') = malloc (length bytes) (m.free node s') in
      let filled : Msg = record {
        src = os_task_name_get_from_tid self n.tasks;
        dst = dst;
        priority = priority;
        bytes = bytes;
      } in
      let n1 : Net Store = record n { msgs = update n.msgs msg filled; store = s } in
      let (p, same_size, same_bytes, end) =
        recv2_pushed t u (os_task_aq_get dst n.tasks) msg a bytes k n1 eq hq (m.malloc_nonnull _ _)
          e (ap (λ x. x.bytes) (update_self n.msgs msg filled)) in
      rw (os_msg_send2_lem t self priority dst bytes n hq, p, end)
        (
          refl,
          m.malloc_nonnull _ _,
          same_size,
          same_bytes,
          λ x. omega (
            arith,
            m.malloc_blocks size n.store x,
            m.malloc_blocks queue_size s x,
            m.malloc_blocks (length bytes) (m.free node s') x,
            m.free_blocks node s' x (m.malloc_nonnull queue_size s),
            m.free_blocks msg s'' x (m.malloc_nonnull size n.store),
          ),
        )
