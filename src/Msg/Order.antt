-- ===== src/Msg/Order.antt =====
-- Messages between tasks arrive in order: every queue is first in, first out under every schedule.
use multi_task_app.Prelude.{
  ℕ, ◌+◌, ◌≡◌, ◌≢◌, ◌⊎◌, refl, ap, ◌==◌, Bool-cases, inl, inr, length, some, List, [], ◌∷◌, ◌++◌,
  occurrences, arith,
}
use multi_task_app.Alloc.{Allocator}
use multi_task_app.Task.{os_task_aq_get, os_task_aq_self, os_task_name_get_from_tid}
use multi_task_app.Queue.Memory.{non_null}
use multi_task_app.AsyncQueue.{os_async_queue_pop_wait}
use multi_task_app.AsyncQueue.System.{woken_of, wake}
use multi_task_app.AsyncQueue.Fifo.{held, wake-held, pop_wait-held}
use multi_task_app.Msg.{
  Msg, Net, success, failure, update, push_at, msg_size, os_msg_send, os_msg_recv_wait,
  os_msg_recv_resume,
}
use multi_task_app.Msg.Delivery.{os_msg_send2_lem}
use multi_task_app.Msg.Failure.{send2_unknown}
use multi_task_app.Msg.System.{
  Event, sends, sends2, waits, wakes, resumes, computes, System, note_sent, resume, step, run,
}
use multi_task_app.Msg.Ordered.{
  IsOrdered, kept, deposited-IsOrdered, taken-IsOrdered, requeued-IsOrdered,
}

module _ (m : Allocator) where
  open m use {Store, malloc}

  send_cases :
      (t msg : ℕ) (n : Net Store)
      → (os_msg_send m t msg n ≡ (failure, n))
        ⊎ ((msg ≢ 0)
            × (os_msg_send m t msg n
                ≡ (success, push_at m t (os_task_aq_get (n.msgs msg).dst n.tasks) msg n)))
  unfolding os_msg_send
  send_cases t msg n =
      let p = os_task_aq_get (n.msgs msg).dst n.tasks in
      elim (Bool-cases (msg == 0)) [
        | inl e ↦ inl (rw e refl)
        | inr e ↦ elim (Bool-cases (p == 0)) [
          | inl f ↦ inl (rw (e, f) refl)
          | inr f ↦ inr ((λ z. ground (arith, e, z)), rw (e, f) refl)
        ]
      ]

  step-IsOrdered :
      (e : Event Store) (q : ℕ) (s : System Store) (xs : List ℕ)
      → IsOrdered m q s xs
      → (ys : List ℕ) × IsOrdered m q (step m e s) ys
  unfolding step resume note_sent os_msg_recv_wait os_msg_recv_resume
  step-IsOrdered (sends t msg) q s xs v = elim (send_cases t msg s.net) [
    | inl e ↦ rw e (kept m q s _ xs refl refl refl v)
    | inr (h, e) ↦
        rw e
          (deposited-IsOrdered m t (os_task_aq_get (s.net.msgs msg).dst s.net.tasks) q msg s xs h v)
  ]
  step-IsOrdered (sends2 t self dst priority bytes) q s xs v =
      let p = os_task_aq_get dst s.net.tasks in
      let (msg, store) = malloc (msg_size + length bytes) s.net.store in
      elim (Bool-cases (p == 0)) [
        | inl e ↦
            let unknown : p ≡ 0 = ground (arith, e) in
            let (failed, tasks, queues, blocks) =
              send2_unknown m t self priority dst bytes s.net unknown in
            rw failed (kept m q s _ xs (ap (λ f. held (f q)) queues) refl refl v)
        | inr e ↦
            let known : p ≢ 0 = ground (arith, e) in
            let filled : Msg = record {
              src = os_task_name_get_from_tid self s.net.tasks;
              dst = dst;
              priority = priority;
              bytes = bytes;
            } in
            let s1 : System Store = record s {
              net = record s.net { msgs = update s.net.msgs msg filled; store = store };
            } in
            let (ys, v1) = kept m q s s1 xs refl refl refl v in
            rw (os_msg_send2_lem m t self priority dst bytes s.net known) (
              deposited-IsOrdered m t p q msg s1 ys
                (m.malloc_nonnull (msg_size + length bytes) s.net.store) v1)
      ]
  step-IsOrdered (waits u) q s xs v =
      let p = os_task_aq_self u s.net.tasks in
      elim (Bool-cases (p == 0)) [
        | inl e ↦ rw e (kept m q s _ xs refl refl refl v)
        | inr e ↦ rw e (
            requeued-IsOrdered m p q (os_async_queue_pop_wait (s.net.queues p) u) s xs
              (pop_wait-held u (s.net.queues p)) v)
      ]
  step-IsOrdered (wakes u) q s xs v =
      let p = os_task_aq_self u s.net.tasks in
      requeued-IsOrdered m p q (wake u (s.net.queues p)) s xs (wake-held u (s.net.queues p)) v
  step-IsOrdered (resumes u) q s xs v =
      let p = os_task_aq_self u s.net.tasks in
      elim (Bool-cases (p == 0)) [
        | inl e ↦ rw e (xs, v)
        | inr e ↦ elim (Bool-cases (occurrences u (woken_of (s.net.queues p)) == 0)) [
          | inl f ↦ rw (e, f) (xs, v)
          | inr f ↦ rw (e, f) (taken-IsOrdered m u p q s xs v)
        ]
      ]
  step-IsOrdered (computes msgs store) q s xs v = kept m q s _ xs refl refl refl v

  run-IsOrdered :
      (es : List (Event Store)) (q : ℕ) (s : System Store) (xs : List ℕ)
      → IsOrdered m q s xs
      → (ys : List ℕ) × IsOrdered m q (run m es s) ys
  unfolding run
  run-IsOrdered [] q s xs v = (xs, v)
  run-IsOrdered (e ∷ es) q s xs v =
      let (ys, w) = step-IsOrdered e q s xs v in run-IsOrdered es q (step m e s) ys w

  -- Messages arrive in order, task by task, under every schedule of the tasks: for each queue that
  -- is empty at first, the messages that were sent to a name with that queue, by os_msg_send and
  -- os_msg_send2 with success, are the results of os_msg_recv on that queue that were not NULL,
  -- followed by what the queue still holds. No message is lost, made up, delivered twice, delivered
  -- to another task or overtaken on its way.
  pub messages_in_order :
      (es : List (Event Store)) (n : Net Store) (q : ℕ)
      → held (n.queues q) ≡ some []
      → let end = run m es (record { net = n; sent = λ p. []; received = λ p. [] }) in
        (ys : List ℕ) × (held (end.net.queues q) ≡ some ys)
        × (end.sent q ≡ non_null (end.received q) ++ ys)
  messages_in_order es n q h =
      let (ys, v) =
        run-IsOrdered es q (record { net = n; sent = λ p. []; received = λ p. [] }) []
          (record { holds = h; order = refl; nonnull = tt }) in
      (ys, v.holds, v.order)
