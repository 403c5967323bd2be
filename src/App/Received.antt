-- ===== src/App/Received.antt =====
-- What the steps of a consumer do to the state of the tasks of init/main.c.
use multi_task_app.Prelude.{
  ℕ, ◌+◌, ◌≡◌, ◌≢◌, refl, sym, ap, ◌∙◌, ◌==◌, false, Bool-cases, inl, inr, some, List, [], ◌∷◌,
  ◌++◌, map, occurrences, arith,
}
use multi_task_app.Alloc.{Allocator}
use multi_task_app.Task.{Task, os_task_aq_self}
use multi_task_app.AsyncQueue.{os_async_queue_pop_resume}
use multi_task_app.AsyncQueue.Fifo.{held, pop-held}
use multi_task_app.Msg.{Net, update, os_msg_recv_resume}
use multi_task_app.Msg.Delivery.{update_self, update_ne, nonzero_test}
use multi_task_app.Threadpool.Backed.{owned_by, Backed, pop-Backed}
use multi_task_app.App.Scheduled.{System}
use multi_task_app.App.Accounts.{queues_of, total-change, one_of_total}
use multi_task_app.App.Conversing.{
  lines_of, lines_of-some, line_at, in_hand, charge, IsInOrder, IsConversing, Backed-of, real_of,
  kept,
}

module _ (m : Allocator) (ts : List Task) where
  open m use {Store, blocks, malloc}

  -- The consumer of the queue at `q` takes its first message `x`.
  abbrev pub taken : ℕ → ℕ → ℕ → System Store → System Store
  taken u q x s =
      let (r, queue, store) = os_async_queue_pop_resume m (s.net.queues q) u s.net.store in
      record s {
        net = record s.net { queues = update s.net.queues q queue; store = store };
        hand = update s.hand q x;
      }

  taken-IsInOrder :
      (u q x : ℕ) (s : System Store) (xs ys : List ℕ)
      → x ≢ 0
      → Backed m (s.net.queues q) s.net.store
      → held (s.net.queues q) ≡ some (x ∷ ys)
      → xs ≡ x ∷ ys
      → IsInOrder s q xs
      → IsInOrder (taken u q x s) q xs
  taken-IsInOrder u q x s xs ys hx b holding ex v =
      let (result, rest) = pop-held m u (s.net.queues q) s.net.store (x ∷ ys) holding in
      let real : (x == 0) ≡ false = ground (arith, hx) in
      let in_its : in_hand x ≡ x ∷ [] = rw real refl in
      record {
        holds = (
          ys,
          ap held (update_self s.net.queues q _) ∙ rest,
          ex
              ∙ ap (λ l. l ++ ys) (sym in_its)
              ∙ ap (λ p. in_hand p ++ ys) (sym (update_self s.hand q x)),
        );
        order = v.order;
        nonnull = v.nonnull;
        real =
            ap (λ k. occurrences 0 (owned_by k)) (update_self s.net.queues q _)
            ∙ real_of m ts _ _ (pop-Backed m u (s.net.queues q) s.net.store b).0;
      }

  pub taken-IsConversing :
      (e : ℕ → ℕ) (u q x : ℕ) (s : System Store) (hs : ℕ → List ℕ) (ys : List ℕ)
      → q ≢ 0
      → occurrences q (queues_of ts) ≡ 1
      → x ≢ 0
      → held (s.net.queues q) ≡ some (x ∷ ys)
      → hs q ≡ x ∷ ys
      → IsConversing m ts e s hs
      → IsConversing m ts e (taken u q x s) hs
  taken-IsConversing e u q x s hs ys hq one hx holding ex v =
      let listed = v.queues q hq (omega (arith, one)) in
      let b = Backed-of m ts e s hs q hq one v in
      let (_, same) = pop-Backed m u (s.net.queues q) s.net.store b in
      let (r, queue, store) = os_async_queue_pop_resume m (s.net.queues q) u s.net.store in
      let s' = taken u q x s in
      record {
        tasks = v.tasks;
        queues = λ p hp present. elim (Bool-cases (p == q)) [
          | inl z ↦
              let here : q ≡ p = ground (arith, z) in
              rw (← here) (taken-IsInOrder u q x s (hs q) ys hx b holding ex listed)
          | inr z ↦
              let other : p ≢ q = ground (arith, z) in
              kept m ts p s s' (hs p) (update_ne s.net.queues q _ p other) refl refl
                (update_ne s.hand q x p other) refl (v.queues p hp present)
        ];
        live = λ a. omega (
          arith,
          same a,
          v.live a,
          total-change (charge s.net hs a) (charge s'.net hs a) q (queues_of ts)
              (λ y other. sym (λ i.
                occurrences a (owned_by (update_ne s.net.queues q queue y other i))
                + occurrences a (hs y)))
              one,
          one_of_total (charge s.net hs a) q (queues_of ts) (omega (arith, one)),
          ap (λ k. occurrences a (owned_by k)) (update_self s.net.queues q queue),
        );
      }

  -- The consumer of the queue at `q` logs and frees the message `x` in its hand.
  abbrev pub freed : ℕ → ℕ → System Store → System Store
  freed q x s = record s {
    net = record s.net { store = m.free x s.net.store };
    logged = update s.logged q (s.logged q ++ some (line_at s.net.msgs x) ∷ []);
    hand = update s.hand q 0;
  }

  freed-IsInOrder :
      (q x : ℕ) (s : System Store) (xs ys : List ℕ)
      → held (s.net.queues q) ≡ some ys
      → xs ≡ x ∷ ys
      → IsInOrder s q xs
      → IsInOrder (freed q x s) q ys
  freed-IsInOrder q x s xs ys holding ex v = record {
    holds = (ys, holding, ap (λ p. in_hand p ++ ys) (sym (update_self s.hand q 0)));
    order =
        v.order
        ∙ (λ i. lines_of (s.logged q) ++ map (line_at s.net.msgs) (ex i))
        ∙ sym (lines_of-some (s.logged q) (line_at s.net.msgs x) (map (line_at s.net.msgs) ys))
        ∙ ap (λ l. lines_of l ++ map (line_at s.net.msgs) ys) (sym (update_self s.logged q _));
    nonnull = (rw ex at v.nonnull).1;
    real = v.real;
  }

  pub freed-IsConversing :
      (e : ℕ → ℕ) (q x : ℕ) (s : System Store) (hs : ℕ → List ℕ) (ys : List ℕ)
      → q ≢ 0
      → occurrences q (queues_of ts) ≡ 1
      → x ≢ 0
      → held (s.net.queues q) ≡ some ys
      → hs q ≡ x ∷ ys
      → IsConversing m ts e s hs
      → IsConversing m ts e (freed q x s) (update hs q ys)
  freed-IsConversing e q x s hs ys hq one hx holding ex v =
      let listed = v.queues q hq (omega (arith, one)) in
      let s' = freed q x s in
      let hs' = update hs q ys in
      record {
        tasks = v.tasks;
        queues = λ p hp present. elim (Bool-cases (p == q)) [
          | inl z ↦
              let here : q ≡ p = ground (arith, z) in
              rw (← here)
                (rw (update_self hs q ys) (freed-IsInOrder q x s (hs q) ys holding ex listed))
          | inr z ↦
              let other : p ≢ q = ground (arith, z) in
              rw (update_ne hs q ys p other) (
                kept m ts p s s' (hs p) refl refl (update_ne s.logged q _ p other)
                  (update_ne s.hand q 0 p other) refl (v.queues p hp present))
        ];
        live = λ a. omega (
          arith,
          m.free_blocks x s.net.store a hx,
          v.live a,
          ap (occurrences a) ex,
          total-change (charge s.net hs a) (charge s'.net hs' a) q (queues_of ts)
              (λ y other. sym (λ i.
                occurrences a (owned_by (s.net.queues y))
                + occurrences a (update_ne hs q ys y other i)))
              one,
          one_of_total (charge s.net hs a) q (queues_of ts) (omega (arith, one)),
          ap (occurrences a) (update_self hs q ys),
        );
      }

  -- What os_msg_recv gives a consumer, by what its queue holds.
  pub recv_nothing :
      (u q : ℕ) (n : Net Store)
      → os_task_aq_self u n.tasks ≡ q
      → q ≢ 0
      → held (n.queues q) ≡ some []
      → (os_msg_recv_resume m u n).0 ≡ 0
  unfolding os_msg_recv_resume
  recv_nothing u q n eq hq h =
      let (result, rest) = pop-held m u (n.queues q) n.store [] h in
      rw (eq, nonzero_test q hq) result

  pub recv_takes :
      (u q x : ℕ) (ys : List ℕ) (s : System Store)
      → os_task_aq_self u s.net.tasks ≡ q
      → q ≢ 0
      → held (s.net.queues q) ≡ some (x ∷ ys)
      → os_msg_recv_resume m u s.net ≡ (x, (taken u q x s).net)
  unfolding os_msg_recv_resume
  recv_takes u q x ys s eq hq h =
      let (result, rest) = pop-held m u (s.net.queues q) s.net.store (x ∷ ys) h in
      rw (eq, nonzero_test q hq, result) refl
