-- ===== src/Tests/Programs.antt =====
-- Tests of App.antt and its children.
use multi_task_app.Prelude.{
  ℕ, ◌≡◌, refl, true, none, some, [], ◌∷◌, ◌++◌, ◌==◌, if◌then◌else◌, occurrences, arith, ◌∙◌, sym,
}
use multi_task_app.Mm.{Sys}
use multi_task_app.Task.{find, os_task_aq_get, os_task_aq_self}
use multi_task_app.Msg.{Msg, Net}
use multi_task_app.App.{hello, data_size, padded, produce, task_routine_consumer}
use multi_task_app.App.Conversation.{task_routine_consumer-produce}
use multi_task_app.Prelude.{◌+◌, ◌≢◌, List, map}
use multi_task_app.AsyncQueue.Fifo.{held}
use multi_task_app.App.{world}
use multi_task_app.App.Scheduled.{
  Event, waits, wakes, produces, resumes, finishes, works_no1, works_normal, run,
}
use multi_task_app.App.Accounts.{Distinct, total}
use multi_task_app.App.Conversing.{lines_of, line_at, in_hand, charge}
use multi_task_app.App.Order.{nothing as nothing_held, start, logged_in_order}
use multi_task_app.Sample.TaskShow.{task_routine_consumer1, task_routine_consumer2}
use multi_task_app.Sample.Heard.{EndsWith, consumers_end}
use multi_task_app.App.Locks.{
  looping, die_locking, Tasks, initial, lock_locks, lock_sleeps, die_lock_wakes, here, next,
}
use multi_task_app.App.Deadlock.{lock_passes, die_lock_passes, one_never_passes}
use multi_task_app.Tests.World.{allocator, five, empty_queue, task, allocator-Fresh}

abbrev nothing : Msg
nothing = record { src = none; dst = ""; priority = 0; bytes = [] }

abbrev net : Net Sys
net = record {
  tasks = task "producer" 20 60 ∷ task "consumer1" 21 7 ∷ [];
  queues = λ p. if p == 7 then some empty_queue else none;
  msgs = λ p. nothing;
  buffers = λ p. [];
  store = five;
}

consumer_queue : os_task_aq_get "consumer1" net.tasks ≡ 7
unfolding os_task_aq_get find
consumer_queue = refl

consumer_self : os_task_aq_self 21 net.tasks ≡ 7
unfolding os_task_aq_self find
consumer_self = refl

consumer-produce_example :
    (end : Net Sys) × (task_routine_consumer allocator 21
        (produce allocator 21 "consumer1" hello net)
      ≡ some ((some "producer", padded data_size hello), end))
    × ((x : ℕ) → occurrences x end.store.user ≡ occurrences x net.store.user)
consumer-produce_example =
    task_routine_consumer-produce allocator 21 21 5 "consumer1" hello empty_queue net
      (rw consumer_queue (omega arith)) (consumer_self ∙ sym consumer_queue)
      (rw consumer_queue refl)

-- The producer has no queue.
abbrev talking : Net Sys
talking = record net { tasks = task "producer" 20 0 ∷ task "consumer1" 21 7 ∷ [] }

talking-Distinct : Distinct talking.tasks
talking-Distinct q h = ground (arith, h)

-- The second message comes while the consumer has not resumed yet, and a third has no receiver.
abbrev talk : List Event
talk =
    waits 21
    ∷ produces 21 "consumer1" hello
    ∷ works_no1
    ∷ produces 21 "consumer1" world
    ∷ produces 21 "consumer9" world
    ∷ works_normal 3
    ∷ resumes 21
    ∷ works_no1
    ∷ finishes 21
    ∷ waits 21
    ∷ wakes 21
    ∷ resumes 21
    ∷ []

logged_in_order_example :
    let end = run allocator talk (start allocator talking) in
    (hs : ℕ → List ℕ) × ((q : ℕ)
      → q ≢ 0
      → occurrences q (0 ∷ 7 ∷ []) ≢ 0
      → (ys : List ℕ) × (held (end.net.queues q) ≡ some ys)
        × (hs q ≡ in_hand (end.hand q) ++ ys)
        × (end.sent q ≡ lines_of (end.logged q) ++ map (line_at end.net.msgs) (hs q)))
    × ((a : ℕ)
        → occurrences a end.net.store.user
            + total (charge talking (nothing_held allocator) a) (0 ∷ 7 ∷ [])
          ≡ occurrences a talking.store.user
            + occurrences a end.kept
            + total (charge end.net hs a) (0 ∷ 7 ∷ []))
logged_in_order_example =
    logged_in_order allocator talk talking allocator-Fresh talking-Distinct
      (λ q h present. let here : q ≡ 7 = ground (arith, h, present) in rw here (refl, refl))
      (λ a. omega arith)

-- The producer sends in each round of the wait.
abbrev meanwhile : ℕ → Net Sys → Net Sys
meanwhile i n = produce allocator 21 "consumer1" hello n

consumers_end_example :
    EndsWith allocator 5 (task_routine_consumer1 allocator 5 21 meanwhile talking)
    × EndsWith allocator 4 (task_routine_consumer2 allocator 5 22 meanwhile talking)
consumers_end_example = consumers_end allocator 5 21 22 meanwhile meanwhile talking (omega arith)

-- task_routine_lock takes the mutex.
abbrev locked_out : Tasks
locked_out = record initial { locked = true; lock = looping }

-- task_routine_die_lock comes to its call.
abbrev stuck : Tasks
stuck = record locked_out { die_lock = die_locking }

one_never_passes_example :
    (lock_passes stuck.lock + die_lock_passes stuck.die_lock ≡ 1)
    × (lock_passes stuck.lock ≡ lock_passes locked_out.lock)
    × (die_lock_passes stuck.die_lock ≡ die_lock_passes locked_out.die_lock)
one_never_passes_example =
    one_never_passes locked_out stuck (next here (lock_locks refl refl refl)) refl
      (next (next here (die_lock_wakes refl refl)) (lock_sleeps refl refl))
