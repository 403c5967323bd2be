-- ===== src/Msg/System.antt =====
-- Tasks that send each other messages through os_msg.c, as a sequence of events that the scheduler
-- chooses. No task is created or ends meanwhile.
use multi_task_app.Prelude.{
  ℕ, ◌+◌, ◌==◌, if◌then◌else◌, length, some, List, [], ◌∷◌, ◌++◌, String, occurrences,
}
use multi_task_app.Alloc.{Allocator}
use multi_task_app.Task.{os_task_aq_get, os_task_aq_self}
use multi_task_app.AsyncQueue.System.{woken_of, wake}
use multi_task_app.Msg.{
  Msg, Net, Status, success, failure, update, msg_size, os_msg_send, os_msg_send2, os_msg_recv_wait,
  os_msg_recv_resume,
}

-- `sends t msg`: a thread calls os_msg_send, and the signal prefers thread `t`. `sends2` is
-- os_msg_send2 by the thread `self`. `waits u`: thread `u` calls os_msg_recv, up to the wait.
-- `wakes u`: its wait ends without a signal. `resumes u`: its call ends. `computes`: the tasks do
-- other work, which leaves any contents of the messages and any store behind.
pub data Event (S : Type 0) : Type 0 where
  sends : ℕ → ℕ → Event S
  sends2 : ℕ → ℕ → String → ℕ → List ℕ → Event S
  waits wakes resumes : ℕ → Event S
  computes : (ℕ → Msg) → S → Event S

-- For each queue, the messages that were sent to it with success and the results of the calls of
-- os_msg_recv that took from it, oldest first.
pub record System (S : Type 0) : Type 0 where
  pub net : Net S
  pub sent : ℕ → List ℕ
  pub received : ℕ → List ℕ

unfoldable pub note_sent : {S : Type 0} → Status → ℕ → ℕ → System S → System S
note_sent success q msg s = record s { sent = update s.sent q (s.sent q ++ msg ∷ []) }
note_sent failure q msg s = s

module _ (m : Allocator) where
  open m use {Store, malloc}

  -- The end of a call of os_msg_recv by a thread that was released.
  unfoldable pub resume : ℕ → ℕ → System Store → System Store
  resume u q s =
      let (msg, n) = os_msg_recv_resume m u s.net in
      if occurrences u (woken_of (s.net.queues q)) == 0
      then s
      else record s { net = n; received = update s.received q (s.received q ++ msg ∷ []) }

  unfoldable pub step : Event Store → System Store → System Store
  unfolding note_sent resume
  step (sends t msg) s =
      let (status, n) = os_msg_send m t msg s.net in
      note_sent status (os_task_aq_get (s.net.msgs msg).dst s.net.tasks) msg (record s { net = n })
  step (sends2 t self dst priority bytes) s =
      let (status, n) = os_msg_send2 m t self (some dst) priority bytes s.net in
      note_sent status (os_task_aq_get dst s.net.tasks)
        (malloc (msg_size + length bytes) s.net.store).0 (record s { net = n })
  step (waits u) s = record s { net = (os_msg_recv_wait m u s.net).1 }
  step (wakes u) s =
      let q = os_task_aq_self u s.net.tasks in
      record s { net = record s.net { queues = update s.net.queues q (wake u (s.net.queues q)) } }
  step (resumes u) s = let q = os_task_aq_self u s.net.tasks in if q == 0 then s else resume u q s
  step (computes msgs store) s = record s { net = record s.net { msgs = msgs; store = store } }

  unfoldable pub run : List (Event Store) → System Store → System Store
  unfolding step
  run [] s = s
  run (e ∷ es) s = run es (step e s)
