-- ===== src/AsyncQueue/System.antt =====
-- Threads that share one asynchronous queue, as a sequence of events that the scheduler chooses.
use multi_task_app.Prelude.{
  ℕ, ◌+◌, ◌==◌, if◌then◌else◌, Option, none, some, List, [], ◌∷◌, ◌++◌, erase, occurrences,
}
use multi_task_app.Alloc.{Allocator}
use multi_task_app.AsyncQueue.{
  AsyncQueue, os_async_queue_push, os_async_queue_pop_wait, os_async_queue_pop_resume,
}

-- `pushes t d`: a thread pushes `d`, and the signal prefers thread `t`. `calls t`: thread `t` calls
-- os_async_queue_pop. `wakes t`: cond_wait lets `t` go without a signal for it, which POSIX allows.
-- `resumes t`: the released thread `t` gets the mutex and ends its call.
pub data Event : Type 0 where
  pushes : ℕ → ℕ → Event
  calls wakes resumes : ℕ → Event

-- `log` holds the results of the calls of os_async_queue_pop that ended, oldest first.
pub record Sys (S : Type 0) : Type 0 where
  pub aq : Option AsyncQueue
  pub store : S
  pub log : List ℕ

unfoldable pub waiting_of : Option AsyncQueue → List ℕ
waiting_of none = []
waiting_of (some q) = q.waiting

unfoldable pub woken_of : Option AsyncQueue → List ℕ
woken_of none = []
woken_of (some q) = q.woken

unfoldable pub wake : ℕ → Option AsyncQueue → Option AsyncQueue
wake t none = none
wake t (some q) = some (record q { waiting = erase t q.waiting; woken = q.woken ++ t ∷ [] })

module _ (m : Allocator) where
  open m use {Store}

  unfoldable pub step : Event → Sys Store → Sys Store
  unfolding waiting_of woken_of wake
  step (pushes t d) s =
      let (q, store) = os_async_queue_push m t s.aq d s.store in record s { aq = q; store = store }
  step (calls t) s =
      if occurrences t (waiting_of s.aq) + occurrences t (woken_of s.aq) == 0
      then record s { aq = os_async_queue_pop_wait s.aq t }
      else s
  step (wakes t) s =
      if occurrences t (waiting_of s.aq) == 0 then s else record s { aq = wake t s.aq }
  step (resumes t) s =
      let (d, q, store) = os_async_queue_pop_resume m s.aq t s.store in
      if occurrences t (woken_of s.aq) == 0
      then s
      else record s { aq = q; store = store; log = s.log ++ d ∷ [] }

  unfoldable pub run : List Event → Sys Store → Sys Store
  run [] s = s
  run (e ∷ es) s = run es (step e s)
