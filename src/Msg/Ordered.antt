-- ===== src/Msg/Ordered.antt =====
-- A queue and the messages that were sent to it and received from it.
use multi_task_app.Prelude.{
  ℕ, ◌≡◌, ◌≢◌, refl, sym, ap, ◌∙◌, ◌==◌, Bool-cases, inl, inr, Option, some, List, [], ◌∷◌, ◌++◌,
  append_assoc, append-nil, drop_first, arith,
}
use multi_task_app.Alloc.{Allocator}
use multi_task_app.Queue.Memory.{non_null}
use multi_task_app.AsyncQueue.{AsyncQueue, os_async_queue_pop_resume}
use multi_task_app.AsyncQueue.Fifo.{
  held, AllNonNull, AllNonNull-append, AllNonNull-drop_first, order_kept, push-held, pop-held,
}
use multi_task_app.Msg.{success, update, push_at}
use multi_task_app.Msg.Delivery.{update_self, pushed_self, update_ne}
use multi_task_app.Msg.System.{System, note_sent}

module _ (m : Allocator) where
  open m use {Store, malloc}

  -- The queue at `q` holds `xs`, and these with the messages received from it are those sent to it.
  pub record IsOrdered (q : ℕ) (s : System Store) (xs : List ℕ) : Type 0 where
    pub holds : held (s.net.queues q) ≡ some xs
    pub order : s.sent q ≡ non_null (s.received q) ++ xs
    pub nonnull : AllNonNull xs

  -- Another state with the same queue and the same messages sent and received.
  pub kept :
      (q : ℕ) (s t : System Store) (xs : List ℕ)
      → held (t.net.queues q) ≡ held (s.net.queues q)
      → t.sent q ≡ s.sent q
      → t.received q ≡ s.received q
      → IsOrdered q s xs
      → (ys : List ℕ) × IsOrdered q t ys
  kept q s t xs h es er v =
      (xs, record { holds = h ∙ v.holds; order = rw (es, er) v.order; nonnull = v.nonnull })

  -- A message is put in the queue at `p`.
  abbrev pub deposited : ℕ → ℕ → ℕ → System Store → System Store
  deposited t p msg s = note_sent success p msg (record s { net = push_at m t p msg s.net })

  deposited_here :
      (t q msg : ℕ) (s : System Store) (xs : List ℕ)
      → msg ≢ 0
      → IsOrdered q s xs
      → IsOrdered q (deposited t q msg s) (xs ++ msg ∷ [])
  unfolding note_sent push_at
  deposited_here t q msg s xs h v = record {
    holds =
        ap held (update_self s.net.queues q _)
        ∙ push-held m t msg (s.net.queues q) s.net.store xs v.holds
        ∙ ap (λ l. some (xs ++ l)) (pushed_self t msg h);
    order =
        update_self s.sent q _
        ∙ ap (λ l. l ++ msg ∷ []) v.order
        ∙ append_assoc (non_null (s.received q)) xs (msg ∷ []);
    nonnull = AllNonNull-append xs (msg ∷ []) v.nonnull (h, tt);
  }

  pub deposited-IsOrdered :
      (t p q msg : ℕ) (s : System Store) (xs : List ℕ)
      → msg ≢ 0
      → IsOrdered q s xs
      → (ys : List ℕ) × IsOrdered q (deposited t p msg s) ys
  unfolding note_sent push_at
  deposited-IsOrdered t p q msg s xs h v = elim (Bool-cases (q == p)) [
    | inl e ↦
        let same : p ≡ q = ground (arith, e) in
        rw same (xs ++ msg ∷ [], deposited_here t q msg s xs h v)
    | inr e ↦
        let other : q ≢ p = ground (arith, e) in
        kept q s (deposited t p msg s) xs (ap held (update_ne s.net.queues p _ q other))
          (update_ne s.sent p _ q other) refl v
  ]

  -- The result of a call of os_msg_recv that takes from the queue at `p`.
  abbrev pub taken : ℕ → ℕ → System Store → System Store
  taken u p s =
      let (msg, queue, store) = os_async_queue_pop_resume m (s.net.queues p) u s.net.store in
      record s {
        net = record s.net { queues = update s.net.queues p queue; store = store };
        received = update s.received p (s.received p ++ msg ∷ []);
      }

  taken_here :
      (u q : ℕ) (s : System Store) (xs : List ℕ)
      → IsOrdered q s xs
      → IsOrdered q (taken u q s) (drop_first xs)
  taken_here u q s xs v =
      let (result, rest) = pop-held m u (s.net.queues q) s.net.store xs v.holds in
      record {
        holds = ap held (update_self s.net.queues q _) ∙ rest;
        order =
            sym (append-nil (s.sent q))
            ∙ order_kept (s.sent q) (s.received q) xs _ v.nonnull result v.order
            ∙ ap (λ l. non_null l ++ drop_first xs) (sym (update_self s.received q _));
        nonnull = AllNonNull-drop_first xs v.nonnull;
      }

  pub taken-IsOrdered :
      (u p q : ℕ) (s : System Store) (xs : List ℕ)
      → IsOrdered q s xs
      → (ys : List ℕ) × IsOrdered q (taken u p s) ys
  taken-IsOrdered u p q s xs v = elim (Bool-cases (q == p)) [
    | inl e ↦ let same : p ≡ q = ground (arith, e) in rw same (drop_first xs, taken_here u q s xs v)
    | inr e ↦
        let other : q ≢ p = ground (arith, e) in
        kept q s (taken u p s) xs (ap held (update_ne s.net.queues p _ q other)) refl
          (update_ne s.received p _ q other) v
  ]

  -- One queue is changed, but not what it holds.
  pub requeued-IsOrdered :
      (p q : ℕ) (k : Option AsyncQueue) (s : System Store) (xs : List ℕ)
      → held k ≡ held (s.net.queues p)
      → IsOrdered q s xs
      → (ys : List ℕ) × IsOrdered q
          (record s { net = record s.net { queues = update s.net.queues p k } })
          ys
  requeued-IsOrdered p q k s xs h v =
      let t : System Store = record s { net = record s.net { queues = update s.net.queues p k } } in
      elim (Bool-cases (q == p)) [
        | inl e ↦
            let same : q ≡ p = ground (arith, e) in
            let here : held (update s.net.queues p k q) ≡ held (s.net.queues q) =
              ap held (ap (update s.net.queues p k) same ∙ update_self s.net.queues p k)
              ∙ h
              ∙ ap (λ x. held (s.net.queues x)) (sym same) in
            kept q s t xs here refl refl v
        | inr e ↦
            let other : q ≢ p = ground (arith, e) in
            kept q s t xs (ap held (update_ne s.net.queues p k q other)) refl refl v
      ]
