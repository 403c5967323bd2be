-- ===== src/Threadpool/System.antt =====
-- The threads that give tasks to a pool and the workers that run them, as a sequence of events that
-- the scheduler chooses. What the tasks' functions do to the memory is left out.
use multi_task_app.Prelude.{
  ℕ, ◌==◌, if◌then◌else◌, Bool, true, false, Option, none, some, List, [], ◌∷◌, ◌++◌, occurrences,
}
use multi_task_app.Alloc.{Allocator, Libc}
use multi_task_app.AsyncQueue.{os_async_queue_pop_wait}
use multi_task_app.AsyncQueue.System.{woken_of, wake}
use multi_task_app.Threadpool.{
  PoolTask, Work, os_threadpool_add, worker_pop, worker_call, worker_free,
}

-- `adds t task`: a thread calls os_threadpool_add, and the signal prefers thread `t`. `waits u`:
-- worker `u` calls os_async_queue_pop. `wakes u`: its wait ends without a signal. `takes u`: its
-- wait is over, and os_async_queue_pop returns. `calls u`: it calls the function of the task that
-- it took, behind the mutex of the queue. `frees u`: the call has returned, and it frees the task.
pub data Event : Type 0 where
  adds : ℕ → PoolTask → Event
  waits wakes takes calls frees : ℕ → Event

-- Workers, each with the address of its task.
abbrev pub Hands : Type 0
Hands = List (ℕ × ℕ)

-- `added` holds the tasks that were taken on, `taken` those that workers took from the queue, and
-- `called` those whose function was called, oldest first. `holding` are the workers before their
-- calls, `calling` those in them.
pub record System (S : Type 0) : Type 0 where
  pub work : Work S
  pub added : List PoolTask
  pub taken : List PoolTask
  pub called : List PoolTask
  pub holding : Hands
  pub calling : Hands

unfoldable pub note_added : {S : Type 0} → Bool → PoolTask → System S → System S
note_added true task x = record x { added = x.added ++ task ∷ [] }
note_added false task x = x

unfoldable pub note_taken : {S : Type 0} → Option PoolTask → ℕ → ℕ → System S → System S
note_taken none u p x = x
note_taken (some task) u p x = record x {
  taken = x.taken ++ task ∷ [];
  holding = (u, p) ∷ x.holding;
}

-- The address at the first entry of a worker, and the other entries.
unfoldable pub part : ℕ → Hands → Option ℕ × Hands
part u [] = (none, [])
part u ((v, p) ∷ ws) =
    let (found, rest) = part u ws in if u == v then (some p, ws) else (found, (v, p) ∷ rest)

unfoldable pub note_called : {S : Type 0} → ℕ → Option ℕ × Hands → System S → System S
note_called u (none, rest) x = x
note_called u (some p, rest) x = record x {
  called = x.called ++ x.work.tasks p ∷ [];
  holding = rest;
  calling = (u, p) ∷ x.calling;
}

-- `size` is the field queue_size of the pool.
module _ (m : Allocator) (l : Libc m) (size : ℕ) where
  open m use {Store}

  unfoldable pub note_freed : Option ℕ × Hands → System Store → System Store
  note_freed (none, rest) x = x
  note_freed (some p, rest) x = record x { work = worker_free m l p x.work; calling = rest }

  unfoldable pub step : Event → System Store → System Store
  unfolding note_added note_taken note_called note_freed
  step (adds t task) x =
      let (success, w) = os_threadpool_add m l t size task x.work in
      note_added success task (record x { work = w })
  step (waits u) x = record x {
    work = record x.work { queue = os_async_queue_pop_wait x.work.queue u };
  }
  step (wakes u) x = record x { work = record x.work { queue = wake u x.work.queue } }
  step (takes u) x =
      let (p, w) = worker_pop m l u x.work in
      if occurrences u (woken_of x.work.queue) == 0
      then x
      else note_taken (worker_call m l p w) u p (record x { work = w })
  step (calls u) x = note_called u (part u x.holding) x
  step (frees u) x = note_freed (part u x.calling) x

  unfoldable pub run : List Event → System Store → System Store
  unfolding step
  run [] x = x
  run (e ∷ es) x = run es (step e x)
