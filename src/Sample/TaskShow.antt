-- ===== src/Sample/TaskShow.antt =====
-- sample/task_show.c: a program whose producer and consumers end after some messages.
use multi_task_app.Prelude.{
  ℕ, zero, suc, ◌+◌, ltb, ◌==◌, false, occurrences, if◌then◌else◌, Bool, Option, none, some, List,
  [], ◌∷◌, map, String,
}
use multi_task_app.Alloc.{Allocator, Libc}
use multi_task_app.Msg.{Net, os_msg_recv_wait}
use multi_task_app.Task.{os_task_aq_self}
use multi_task_app.AsyncQueue.System.{woken_of}
use multi_task_app.Task.Life.{Params}
use multi_task_app.App.{hello, world, produce, task_routine_consumer}
use multi_task_app.App.Scheduled.{Line}
use multi_task_app.Sample.{growing, normal_loop, program}

-- The names that main gives its tasks, in order.
abbrev pub task_names : List String
task_names = "no1" ∷ "no2" ∷ "normal" ∷ "producer" ∷ "consumer1" ∷ "consumer2" ∷ []

abbrev pub main_params : (String → ℕ) → List Params
main_params routine =
    map (λ name. record { name = name; stack_size = 0; priority = 0; func = routine name; arg = 0 })
      task_names

-- How the loop of a consumer ends: the task returns, with the lines that it logged; or it reads
-- through NULL; or it waits in os_msg_recv without an end, with the lines that it logged before; or
-- the rounds run out.
pub data Heard (S : Type 0) : Type 0 where
  ended blocked : List Line → Net S → Heard S
  faulted running : Heard S

unfoldable pub logging : {S : Type 0} → Line → Heard S → Heard S
logging line (ended lines n) = ended (line ∷ lines) n
logging line (blocked lines n) = blocked (line ∷ lines) n
logging line faulted = faulted
logging line running = running

module _ (m : Allocator) where
  open m use {Store}

  unfoldable pub task_routine_no1 : ℕ → Store → Option Store
  task_routine_no1 rounds s = growing m 16 5 rounds 0 s

  unfoldable pub task_routine_no2 : ℕ → Store → Option Store
  task_routine_no2 rounds s = growing m 512 10 rounds 0 s

  unfoldable pub task_routine_normal : ℕ → Store → Option Store
  task_routine_normal rounds s = normal_loop m rounds 0 s

  -- A round of the producer's loop: a message to each consumer. `others` is what the other tasks do
  -- behind each message, while the producer sleeps, their ends and what they send included; `t` and
  -- `t'` are the threads that the signals prefer.
  unfoldable pub producer_round :
      ℕ → ℕ → (Net Store → Net Store) → (Net Store → Net Store) → Net Store → Net Store
  producer_round t t' others others' n =
      others' (produce m t' "consumer2" world (others (produce m t "consumer1" hello n)))

  -- The loop of task_routine_producer, up to so many rounds.
  unfoldable pub producer_loop :
      ℕ
      → ℕ
      → ℕ
      → (ℕ → Net Store → Net Store)
      → (ℕ → Net Store → Net Store)
      → ℕ
      → Net Store
      → Option (Net Store)
  unfolding producer_round
  producer_loop zero t t' others others' cnt n = none
  producer_loop (suc rounds) t t' others others' cnt n =
      let n' = producer_round t t' (others cnt) (others' cnt) n in
      let rest = producer_loop rounds t t' others others' (cnt + 1) n' in
      if ltb 5 cnt then some n' else rest

  unfoldable pub task_routine_producer :
      ℕ
      → ℕ
      → ℕ
      → (ℕ → Net Store → Net Store)
      → (ℕ → Net Store → Net Store)
      → Net Store
      → Option (Net Store)
  unfolding producer_loop
  task_routine_producer rounds t t' others others' n = producer_loop rounds t t' others others' 0 n

  unfoldable pub next_line :
      Bool → Option (Line × Net Store) → (Net Store → Heard Store) → Heard Store
  unfolding logging
  next_line last none rest = faulted
  next_line last (some (line, n)) rest = if last then ended (line ∷ []) n else logging line (rest n)

  -- Whether the wait of thread `u` in os_msg_recv goes on: it has a queue, and no signal has
  -- released it.
  unfoldable pub still_waits : ℕ → Net Store → Bool
  still_waits u n =
      let q = os_task_aq_self u n.tasks in
      if q == 0 then false else occurrences u (woken_of (n.queues q)) == 0

  -- The loop of a consumer on thread `u`; `others` is what the other tasks do while it waits in
  -- os_msg_recv, up to its release or, if nothing releases it, for good.
  unfoldable pub consumer_loop :
      ℕ → ℕ → ℕ → (ℕ → Net Store → Net Store) → ℕ → Net Store → Heard Store
  unfolding next_line still_waits
  consumer_loop limit zero u others cnt n = running
  consumer_loop limit (suc rounds) u others cnt n =
      let n' = others cnt (os_msg_recv_wait m u n).1 in
      let heard =
        next_line (ltb limit cnt) (task_routine_consumer m u n')
          (consumer_loop limit rounds u others (cnt + 1)) in
      if still_waits u n' then blocked [] n' else heard

  unfoldable pub task_routine_consumer1 :
      ℕ → ℕ → (ℕ → Net Store → Net Store) → Net Store → Heard Store
  task_routine_consumer1 rounds u others n = consumer_loop 3 rounds u others 0 n

  unfoldable pub task_routine_consumer2 :
      ℕ → ℕ → (ℕ → Net Store → Net Store) → Net Store → Heard Store
  task_routine_consumer2 rounds u others n = consumer_loop 2 rounds u others 0 n

  module _ (l : Libc m) where
    unfoldable pub main : (String → ℕ) → (Params → Bool) → ℕ → Net Store → Option (Net Store)
    main routine created rounds n = program m l 20 (main_params routine) created rounds n
