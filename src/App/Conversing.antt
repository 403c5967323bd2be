-- ===== src/App/Conversing.antt =====
-- The state of the tasks of init/main.c between the events of a schedule.
use multi_task_app.Prelude.{
  ℕ, ◌+◌, ◌≤◌, ◌≡◌, ◌≢◌, refl, sym, ap, ◌∙◌, ◌==◌, if◌then◌else◌, bit, Bool-cases, inl, inr, Option,
  none, some, List, [], ◌∷◌, ◌++◌, append_assoc, append-nil, map, occurrences, occurrences-append,
  arith,
}
use multi_task_app.Alloc.{Allocator}
use multi_task_app.Task.{Task}
use multi_task_app.AsyncQueue.{AsyncQueue, os_async_queue_push}
use multi_task_app.AsyncQueue.Fifo.{held, AllNonNull, AllNonNull-append, push-held}
use multi_task_app.Msg.{Msg, Net, update, push_at}
use multi_task_app.Msg.Delivery.{update_self, update_ne, pushed_self}
use multi_task_app.Threadpool.Backed.{owned_by, Backed, push-Backed}
use multi_task_app.App.Scheduled.{Line, System}
use multi_task_app.App.Accounts.{queues_of, total, total-change, one_of_total}

-- The lines that were logged.
abbrev pub lines_of : List (Option Line) → List Line
lines_of [] = []
lines_of (none ∷ ls) = lines_of ls
lines_of (some line ∷ ls) = line ∷ lines_of ls

lines_of-append : (ls ks : List (Option Line)) → lines_of (ls ++ ks) ≡ lines_of ls ++ lines_of ks
lines_of-append [] ks = refl
lines_of-append (none ∷ ls) ks = lines_of-append ls ks
lines_of-append (some line ∷ ls) ks = ap (λ l. line ∷ l) (lines_of-append ls ks)

pub lines_of-none : (ls : List (Option Line)) → lines_of (ls ++ none ∷ []) ≡ lines_of ls
lines_of-none ls = lines_of-append ls (none ∷ []) ∙ append-nil (lines_of ls)

pub lines_of-some :
    (ls : List (Option Line)) (line : Line) (ks : List Line)
    → lines_of (ls ++ some line ∷ []) ++ ks ≡ lines_of ls ++ line ∷ ks
lines_of-some ls line ks =
    ap (λ l. l ++ ks) (lines_of-append ls (some line ∷ []))
    ∙ append_assoc (lines_of ls) (line ∷ []) ks

-- What a consumer would log of the message at an address.
abbrev pub line_at : (ℕ → Msg) → ℕ → Line
line_at msgs p = ((msgs p).src, (msgs p).bytes)

pub lines-append :
    (msgs : ℕ → Msg) (xs ys : List ℕ)
    → map (line_at msgs) (xs ++ ys) ≡ map (line_at msgs) xs ++ map (line_at msgs) ys
lines-append msgs [] ys = refl
lines-append msgs (x ∷ xs) ys = ap (λ l. line_at msgs x ∷ l) (lines-append msgs xs ys)

-- A message that is not listed is written.
pub lines-update :
    (msgs : ℕ → Msg) (p : ℕ) (msg : Msg) (xs : List ℕ)
    → occurrences p xs ≡ 0
    → map (line_at (update msgs p msg)) xs ≡ map (line_at msgs) xs
lines-update msgs p msg [] h = refl
lines-update msgs p msg (x ∷ xs) h =
    let other : x ≢ p = ground (arith, h) in
    rw (update_ne msgs p msg x other)
      (ap (λ l. line_at msgs x ∷ l) (lines-update msgs p msg xs (omega (arith, h))))

-- What a queue keeps alive at an address: its own blocks and the messages `hs q` in it.
abbrev pub charge : {S : Type 0} → Net S → (ℕ → List ℕ) → ℕ → ℕ → ℕ
charge n hs a q = occurrences a (owned_by (n.queues q)) + occurrences a (hs q)

-- The message in a consumer's hand.
abbrev pub in_hand : ℕ → List ℕ
in_hand p = if p == 0 then [] else p ∷ []

-- The messages `xs` are those sent to the queue at `q` and not logged: one in the hand of its
-- consumer, if any, and those that the queue holds.
pub record IsInOrder {S : Type 0} (s : System S) (q : ℕ) (xs : List ℕ) : Type 0 where
  pub holds : (ys : List ℕ) × (held (s.net.queues q) ≡ some ys) × (xs ≡ in_hand (s.hand q) ++ ys)
  pub order : s.sent q ≡ lines_of (s.logged q) ++ map (line_at s.net.msgs) xs
  pub nonnull : AllNonNull xs
  pub real : occurrences 0 (owned_by (s.net.queues q)) ≡ 0

module _ (m : Allocator) (ts : List Task) where
  open m use {Store, blocks}

  -- `hs` gives what each queue holds, and `e a` the blocks at `a` that no queue keeps alive.
  pub record IsConversing (e : ℕ → ℕ) (s : System Store) (hs : ℕ → List ℕ) : Type 0 where
    pub tasks : s.net.tasks ≡ ts
    pub queues : (q : ℕ) → q ≢ 0 → occurrences q (queues_of ts) ≢ 0 → IsInOrder s q (hs q)
    pub live : (a : ℕ) → blocks s.net.store a ≡ e a + total (charge s.net hs a) (queues_of ts)

  pub Backed-of :
      (e : ℕ → ℕ) (s : System Store) (hs : ℕ → List ℕ) (q : ℕ)
      → q ≢ 0
      → occurrences q (queues_of ts) ≡ 1
      → IsConversing e s hs
      → Backed m (s.net.queues q) s.net.store
  Backed-of e s hs q h one v =
      backed (s.net.queues q)
        (λ a.
          omega (
            arith,
            v.live a,
            one_of_total (charge s.net hs a) q (queues_of ts) (omega (arith, one)),
          ))
        (v.queues q h (omega (arith, one))).real
    where
      backed :
          (k : Option AsyncQueue)
          → ((a : ℕ) → occurrences a (owned_by k) ≤ blocks s.net.store a)
          → occurrences 0 (owned_by k) ≡ 0
          → Backed m k s.net.store
      backed none live real = tt
      backed (some k) live real = record { live = live; nonnull = real }

  pub real_of : (k : Option AsyncQueue) (s : Store) → Backed m k s → occurrences 0 (owned_by k) ≡ 0
  real_of none s v = refl
  real_of (some k) s v = v.nonnull

  -- A message at `msg`, which no queue holds yet, is put in the queue at `q`.
  abbrev pub deposited : ℕ → ℕ → ℕ → System Store → System Store
  deposited t q msg s = record s {
    net = push_at m t q msg s.net;
    sent = update s.sent q (s.sent q ++ line_at s.net.msgs msg ∷ []);
  }

  deposited-IsInOrder :
      (t q msg : ℕ) (s : System Store) (xs : List ℕ)
      → msg ≢ 0
      → Backed m (s.net.queues q) s.net.store
      → IsInOrder s q xs
      → IsInOrder (deposited t q msg s) q (xs ++ msg ∷ [])
  unfolding push_at
  deposited-IsInOrder t q msg s xs h b v = record {
    holds =
        let (ys, holding, split) = v.holds in
        (
          ys ++ msg ∷ [],
          ap held (update_self s.net.queues q _)
              ∙ push-held m t msg (s.net.queues q) s.net.store ys holding
              ∙ ap (λ l. some (ys ++ l)) (pushed_self t msg h),
          ap (λ l. l ++ msg ∷ []) split ∙ append_assoc (in_hand (s.hand q)) ys (msg ∷ []),
        );
    order =
        update_self s.sent q _
        ∙ ap (λ l. l ++ line_at s.net.msgs msg ∷ []) v.order
        ∙ append_assoc (lines_of (s.logged q)) (map (line_at s.net.msgs) xs) _
        ∙ ap (λ l. lines_of (s.logged q) ++ l) (sym (lines-append s.net.msgs xs (msg ∷ [])));
    nonnull = AllNonNull-append xs (msg ∷ []) v.nonnull (h, tt);
    real =
        ap (λ k. occurrences 0 (owned_by k)) (update_self s.net.queues q _)
        ∙ real_of _ _ (push-Backed m t msg (s.net.queues q) s.net.store h b).0;
  }

  -- Another state in which the queue, its history and its messages are the same.
  pub kept :
      (q : ℕ) (s t : System Store) (xs : List ℕ)
      → t.net.queues q ≡ s.net.queues q
      → t.sent q ≡ s.sent q
      → t.logged q ≡ s.logged q
      → t.hand q ≡ s.hand q
      → map (line_at t.net.msgs) xs ≡ map (line_at s.net.msgs) xs
      → IsInOrder s q xs
      → IsInOrder t q xs
  kept q s t xs eq es el eh em v = record {
    holds =
        let (ys, holding, split) = v.holds in
        (ys, ap held eq ∙ holding, split ∙ (λ i. in_hand (sym eh i) ++ ys));
    order = es ∙ v.order ∙ (λ i. lines_of (sym el i) ++ sym em i);
    nonnull = v.nonnull;
    real = ap (λ k. occurrences 0 (owned_by k)) eq ∙ v.real;
  }

  pub deposited-IsConversing :
      (e e' : ℕ → ℕ) (t q msg : ℕ) (s : System Store) (hs : ℕ → List ℕ)
      → q ≢ 0
      → occurrences q (queues_of ts) ≡ 1
      → msg ≢ 0
      → ((a : ℕ) → e a ≡ e' a + bit (msg == a))
      → IsConversing e s hs
      → IsConversing e' (deposited t q msg s) (update hs q (hs q ++ msg ∷ []))
  unfolding push_at
  deposited-IsConversing e e' t q msg s hs hq one hm extra v =
      let listed = v.queues q hq (omega (arith, one)) in
      let b = Backed-of e s hs q hq one v in
      let (_, same) = push-Backed m t msg (s.net.queues q) s.net.store hm b in
      let s' = deposited t q msg s in
      let hs' = update hs q (hs q ++ msg ∷ []) in
      record {
        tasks = v.tasks;
        queues = λ p hp present. elim (Bool-cases (p == q)) [
          | inl z ↦
              let here : q ≡ p = ground (arith, z) in
              rw (← here) (
                rw (update_self hs q (hs q ++ msg ∷ []))
                  (deposited-IsInOrder t q msg s (hs q) hm b listed))
          | inr z ↦
              let other : p ≢ q = ground (arith, z) in
              rw (update_ne hs q (hs q ++ msg ∷ []) p other) (
                kept p s s' (hs p) (update_ne s.net.queues q _ p other)
                  (update_ne s.sent q _ p other) refl refl refl (v.queues p hp present))
        ];
        live = λ a. omega (
          arith,
          same a,
          extra a,
          v.live a,
          occurrences-append a (hs q) (msg ∷ []),
          total-change (charge s.net hs a) (charge s'.net hs' a) q (queues_of ts)
              (λ x other. sym (λ i.
                occurrences a (
                  owned_by (
                    update_ne s.net.queues q
                      (os_async_queue_push m t (s.net.queues q) msg s.net.store).0 x other i))
                + occurrences a (update_ne hs q (hs q ++ msg ∷ []) x other i)))
              one,
          ap (λ k. occurrences a (owned_by k))
              (update_self s.net.queues q
                (os_async_queue_push m t (s.net.queues q) msg s.net.store).0),
          ap (occurrences a) (update_self hs q (hs q ++ msg ∷ [])),
        );
      }
