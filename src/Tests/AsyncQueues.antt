-- ===== src/Tests/AsyncQueues.antt =====
-- Tests of AsyncQueue.antt and its children.
use multi_task_app.Prelude.{ℕ, ◌+◌, ◌≡◌, refl, length, some, List, [], ◌∷◌, ◌++◌, arith}
use multi_task_app.Mm.{Sys, os_mm_malloc, os_mm_free}
use multi_task_app.Queue.{os_queue_push_tail, os_queue_pop_head}
use multi_task_app.Task.{os_task_mm_add}
use multi_task_app.Queue.Memory.{non_null}
use multi_task_app.AsyncQueue.{
  AsyncQueue, os_async_queue_push, os_async_queue_pop_wait, os_async_queue_pop_resume,
}
use multi_task_app.AsyncQueue.System.{
  Event, pushes, calls, wakes, resumes, Sys as Threads, woken_of, waiting_of, step, run,
}
use multi_task_app.AsyncQueue.Fifo.{held, pushed, pushed_by, AllNonNull, delivers_in_order}
use multi_task_app.AsyncQueue.LostWakeup.{lost_wakeup}
use multi_task_app.AsyncQueue.Handover.{signalled_pop_nonnull, push_hands_over}
use multi_task_app.Tests.World.{allocator, five, empty_queue}

-- Two threads call, two items are pushed, one thread wakes of itself.
abbrev schedule : List Event
schedule =
    calls 1
    ∷ calls 2
    ∷ pushes 2 31
    ∷ resumes 2
    ∷ wakes 1
    ∷ resumes 1
    ∷ pushes 1 32
    ∷ pushes 1 33
    ∷ []

abbrev start : Threads Sys
start = record { aq = some empty_queue; store = five; log = [] }

schedule_log : (run allocator schedule start).log ≡ 31 ∷ 0 ∷ []
unfolding run step os_async_queue_pop_wait os_async_queue_push os_async_queue_pop_resume
    os_queue_push_tail os_queue_pop_head waiting_of woken_of os_mm_malloc os_mm_free os_task_mm_add
schedule_log = refl

delivers_in_order_example :
    let end = run allocator schedule start in
    (ys : List ℕ) × (held end.aq ≡ some ys) × (pushed schedule ≡ non_null end.log ++ ys)
delivers_in_order_example = delivers_in_order allocator schedule (some empty_queue) five refl

empty_waiting : waiting_of (some empty_queue) ≡ []
unfolding waiting_of
empty_waiting = refl

empty_woken : woken_of (some empty_queue) ≡ []
unfolding woken_of
empty_woken = refl

-- The consumer calls after the item is there, and waits.
lost_wakeup_example :
    let end = run allocator (pushes 1 31 ∷ calls 1 ∷ resumes 1 ∷ calls 2 ∷ []) start in
    (held end.aq ≡ some ([] ++ pushed_by (pushes 1 31))) × (end.log ≡ []) × (woken_of end.aq ≡ [])
lost_wakeup_example =
    lost_wakeup allocator 1 31 (calls 1 ∷ resumes 1 ∷ calls 2 ∷ []) start [] refl empty_waiting
      empty_woken tt

signalled_pop_nonnull_example :
    AllNonNull (run allocator (calls 1 ∷ pushes 1 31 ∷ resumes 1 ∷ []) start).log
signalled_pop_nonnull_example =
    signalled_pop_nonnull allocator (calls 1 ∷ pushes 1 31 ∷ resumes 1 ∷ []) (some empty_queue) five
      refl empty_woken tt

abbrev waited_on : AsyncQueue
waited_on = record empty_queue { waiting = 1 ∷ 2 ∷ [] }

push_hands_over_example :
    let (q', s') = os_async_queue_push allocator 2 (some waited_on) 31 five in
    (length (woken_of q') ≡ 0 + 1)
    × (length (waiting_of q') ≡ 1)
    × ((u : ℕ) → (os_async_queue_pop_resume allocator q' u s').0 ≡ 31)
push_hands_over_example =
    push_hands_over allocator 2 31 1 (2 ∷ []) [] waited_on five (omega arith) refl refl
