-- ===== src/AsyncQueue.antt =====
-- platform/os/linux/base/os_async_queue.c: a queue shared by threads, under a mutex and a
-- condition variable. Each function holds the mutex from its lock to its unlock, so it is one step
-- of the system, but for os_async_queue_pop, which cond_wait splits in two.
pub mod System
pub mod Fifo
pub mod Signal
pub mod LostWakeup
pub mod Handover
pub mod Lifetime
use multi_task_app.Prelude.{
  ℕ, ◌==◌, if◌then◌else◌, Option, none, some, List, [], ◌∷◌, ◌++◌, erase, occurrences,
}
use multi_task_app.Alloc.{Allocator}
use multi_task_app.Queue.{
  Queue, os_queue_new, os_queue_free, os_queue_length, os_queue_push_tail, os_queue_pop_head,
}

-- struct os_async_queue_s: `waiting` are the threads blocked on `cond`, `woken` those that
-- `cond` has released and that have yet to take the mutex. The field `destroy` stays NULL: memset
-- clears it and no function sets it.
pub record AsyncQueue : Type 0 where
  pub addr : ℕ
  pub queue : Option Queue
  pub waiting : List ℕ
  pub woken : List ℕ

-- sizeof(os_async_queue_t) on a 64-bit target: cond 48, mutex 40, two pointers.
abbrev pub async_queue_size : ℕ
async_queue_size = 104

-- pthread_cond_signal: it releases one of the threads that wait, if there is one. The scheduler
-- chooses: `t` if it waits, else the one that has waited longest.
release_first : List ℕ → List ℕ × List ℕ
release_first [] = ([], [])
release_first (w ∷ ws) = (w ∷ [], ws)

unfoldable pub signal : ℕ → List ℕ → List ℕ × List ℕ
unfolding release_first
signal t ws = if occurrences t ws == 0 then release_first ws else (t ∷ [], erase t ws)

queue_length : Option Queue → ℕ
queue_length none = 0
queue_length (some q) = os_queue_length q

unfoldable pub os_async_queue_length : AsyncQueue → ℕ
unfolding queue_length os_queue_length
os_async_queue_length q = queue_length q.queue

-- os_async_queue_pop up to the wait: it takes the mutex and calls pthread_cond_wait, which gives
-- the mutex back and blocks the thread. The queue is not looked at before.
unfoldable pub os_async_queue_pop_wait : Option AsyncQueue → ℕ → Option AsyncQueue
os_async_queue_pop_wait none t = none
os_async_queue_pop_wait (some q) t = some (record q { waiting = q.waiting ++ t ∷ [] })

module _ (m : Allocator) where
  open m use {Store, malloc, free}

  with_queue : ℕ → Option Queue × Store → Option AsyncQueue × Store
  with_queue p (none, s) = (none, free p s)
  with_queue p (some q, s) =
      (some (record { addr = p; queue = some q; waiting = []; woken = [] }), s)

  unfoldable pub os_async_queue_new : Store → Option AsyncQueue × Store
  unfolding with_queue
  os_async_queue_new s =
      let (p, t) = malloc async_queue_size s in
      if p == 0 then (none, t) else with_queue p (os_queue_new m t)

  -- The threads that the broadcast releases, and the store after the frees.
  unfoldable pub os_async_queue_free : Option AsyncQueue → Store → List ℕ × Store
  os_async_queue_free none s = ([], s)
  os_async_queue_free (some q) s = (q.woken ++ q.waiting, free q.addr (os_queue_free m q.queue s))

  push_signal : ℕ → AsyncQueue → Option Queue × Store → Option AsyncQueue × Store
  push_signal t q (queue, s) =
      let (released, waiting) = signal t q.waiting in
      (some (record q { queue = queue; waiting = waiting; woken = q.woken ++ released }), s)

  -- os_async_queue_push, with the scheduler's choice `t` for the signal.
  unfoldable pub os_async_queue_push : ℕ → Option AsyncQueue → ℕ → Store → Option AsyncQueue × Store
  unfolding push_signal signal
  os_async_queue_push t none d s = (none, s)
  os_async_queue_push t (some q) d s =
      if d == 0 then (some q, s) else push_signal t q (os_queue_push_tail m q.queue d s)

  pop_taken : AsyncQueue → ℕ × Option Queue × Store → ℕ × Option AsyncQueue × Store
  pop_taken q (d, queue, s) = (d, some (record q { queue = queue }), s)

  -- os_async_queue_pop after the wait: thread `t` has been released and has the mutex again.
  unfoldable pub os_async_queue_pop_resume :
      Option AsyncQueue → ℕ → Store → ℕ × Option AsyncQueue × Store
  unfolding pop_taken
  os_async_queue_pop_resume none t s = (0, none, s)
  os_async_queue_pop_resume (some q) t s =
      pop_taken (record q { woken = erase t q.woken }) (os_queue_pop_head m q.queue s)
