-- ===== src/App/Scheduled.antt =====
-- The tasks of init/main.c at work, as a sequence of events that the scheduler chooses: any task
-- may produce, and any task with a queue may consume. The round of a consumer is three steps,
-- between which other tasks run; a round of another task is one. No task is created or ends meanwhile.
use multi_task_app.Prelude.{
  ℕ, ◌==◌, if◌then◌else◌, Option, none, some, List, [], ◌∷◌, ◌++◌, String, occurrences,
}
use multi_task_app.Alloc.{Allocator}
use multi_task_app.Task.{os_task_aq_get, os_task_aq_self}
use multi_task_app.AsyncQueue.System.{woken_of, wake}
use multi_task_app.Msg.{Net, update, os_msg_recv_wait, os_msg_recv_resume}
use multi_task_app.App.{
  data_size, padded, produce, consumed, task_routine_no1, task_routine_no2, task_routine_normal,
}

-- `produces t dst text`: a half of the producer's loop, whose signal prefers thread `t`. `waits u`:
-- the consumer on thread `u` calls os_msg_recv, up to the wait. `wakes u`: its wait ends without a
-- signal. `resumes u`: its wait is over, and os_msg_recv gives it a message.
-- `finishes u`: it logs the message and frees it. The others are rounds of the tasks
-- no1, no2 and normal, the last with its `cnt`.
pub data Event : Type 0 where
  produces : ℕ → String → List ℕ → Event
  waits wakes resumes finishes : ℕ → Event
  works_no1 works_no2 : Event
  works_normal : ℕ → Event

-- What a consumer logs of a message: its source and its bytes.
abbrev pub Line : Type 0
Line = Option String × List ℕ

-- For each queue, what was sent to it, and what each round of its consumer logged, oldest first:
-- `none` for a round that reads through NULL, at which the process ends. `hand` is
-- the message that the consumer of each queue has taken and not freed yet, 0 for none. `kept` holds
-- the blocks that no1 and no2 do not give back.
pub record System (S : Type 0) : Type 0 where
  pub net : Net S
  pub sent : ℕ → List Line
  pub logged : ℕ → List (Option Line)
  pub hand : ℕ → ℕ
  pub kept : List ℕ

module _ (m : Allocator) where
  open m use {Store, malloc}

  -- A consumer has taken a message, or NULL.
  unfoldable pub received : ℕ → ℕ × Net Store → System Store → System Store
  received q (msg, n) s =
      if msg == 0
      then record s { logged = update s.logged q (s.logged q ++ none ∷ []) }
      else record s { net = n; hand = update s.hand q msg }

  unfoldable pub ended : ℕ → Option (Line × Net Store) → System Store → System Store
  ended q none s = s
  ended q (some (line, n)) s = record s {
    net = n;
    logged = update s.logged q (s.logged q ++ some line ∷ []);
    hand = update s.hand q 0;
  }

  unfoldable pub step : Event → System Store → System Store
  unfolding received ended
  step (produces t dst text) s =
      let q = os_task_aq_get dst s.net.tasks in
      let s' = record s { net = produce m t dst text s.net } in
      if q == 0 then s' else record s' {
        sent = update s.sent q (s.sent q ++ (some "producer", padded data_size text) ∷ []);
      }
  step (waits u) s = record s { net = (os_msg_recv_wait m u s.net).1 }
  step (wakes u) s =
      let q = os_task_aq_self u s.net.tasks in
      if q == 0 then s else record s {
        net = record s.net { queues = update s.net.queues q (wake u (s.net.queues q)) };
      }
  step (resumes u) s =
      let q = os_task_aq_self u s.net.tasks in
      if q == 0
      then s
      else if occurrences u (woken_of (s.net.queues q)) == 0
      then s
      else if s.hand q == 0
      then received q (os_msg_recv_resume m u s.net) s
      else s
  step (finishes u) s =
      let q = os_task_aq_self u s.net.tasks in
      if q == 0 then s else ended q (consumed m (s.hand q, s.net)) s
  step works_no1 s = record s {
    net = record s.net { store = task_routine_no1 m s.net.store };
    kept = (malloc 16 s.net.store).0 ∷ s.kept;
  }
  step works_no2 s = record s {
    net = record s.net { store = task_routine_no2 m s.net.store };
    kept = (malloc 512 s.net.store).0 ∷ s.kept;
  }
  step (works_normal cnt) s = record s {
    net = record s.net { store = (task_routine_normal m cnt s.net.store).1 };
  }

  unfoldable pub run : List Event → System Store → System Store
  unfolding step
  run [] s = s
  run (e ∷ es) s = run es (step e s)
