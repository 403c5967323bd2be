-- ===== src/App/Steps.antt =====
-- What the events of a schedule do to the state of the tasks of init/main.c.
use multi_task_app.Prelude.{
  ℕ, ◌+◌, ◌≡◌, ◌≢◌, refl, sym, ap, ◌∙◌, ◌==◌, bit, Bool-cases, inl, inr, Option, none, some, List,
  [], ◌∷◌, ◌++◌, map, occurrences, arith, String,
}
use multi_task_app.Alloc.{Fresh, Allocator, blocks-free-malloc}
use multi_task_app.Task.{Task, os_task_aq_get, os_task_aq_self}
use multi_task_app.AsyncQueue.{AsyncQueue, os_async_queue_pop_wait}
use multi_task_app.AsyncQueue.System.{wake}
use multi_task_app.AsyncQueue.Fifo.{held}
use multi_task_app.Msg.{update, msg_size, os_msg_recv_resume}
use multi_task_app.Msg.Delivery.{update_self, update_ne, nonzero_test}
use multi_task_app.Threadpool.Backed.{owned_by}
use multi_task_app.App.{data_size, message, consumed}
use multi_task_app.App.Conversation.{written, produce_lem}
use multi_task_app.App.Scheduled.{produces, System, received, ended, step}
use multi_task_app.App.Accounts.{queues_of, Distinct, total, aq_get_once, aq_self_once}
use multi_task_app.App.Conversing.{
  lines_of, lines_of-none, line_at, IsConversing, deposited-IsConversing,
}
use multi_task_app.App.Rounds.{rewritten, written-IsConversing, produce_unknown}
use multi_task_app.App.Received.{taken-IsConversing, freed-IsConversing, recv_nothing, recv_takes}

pub waiting-owned :
    (u : ℕ) (q : Option AsyncQueue) → owned_by (os_async_queue_pop_wait q u) ≡ owned_by q
unfolding os_async_queue_pop_wait
waiting-owned u none = refl
waiting-owned u (some q) = refl

pub woken-owned : (u : ℕ) (q : Option AsyncQueue) → owned_by (wake u q) ≡ owned_by q
unfolding wake
woken-owned u none = refl
woken-owned u (some q) = refl

-- A cell is replaced by one that a function does not tell apart.
update_through :
    {A C : Type 0} (f : C → A) (g : ℕ → C) (k : C) (p : ℕ)
    → f k ≡ f (g p)
    → (q : ℕ) → f (update g p k q) ≡ f (g q)
update_through f g k p h q = elim (Bool-cases (q == p)) [
  | inl z ↦
      let here : q ≡ p = ground (arith, z) in
      ap (λ x. f (update g p k x)) here
      ∙ ap f (update_self g p k)
      ∙ h
      ∙ ap (λ x. f (g x)) (sym here)
  | inr z ↦ let other : q ≢ p = ground (arith, z) in ap f (update_ne g p k q other)
]

module _ (m : Allocator) (ts : List Task) where
  open m use {Store, blocks, malloc}

  -- The state is one that the tasks can be in, where `e a` blocks at `a` are in use elsewhere.
  abbrev pub Valid : (ℕ → ℕ) → System Store → Type 0
  Valid e s = (hs : ℕ → List ℕ) × IsConversing m ts e s hs

  -- One queue is changed, but not what it holds nor its blocks.
  pub requeued :
      (e : ℕ → ℕ) (p : ℕ) (k : Option AsyncQueue) (s : System Store)
      → held k ≡ held (s.net.queues p)
      → owned_by k ≡ owned_by (s.net.queues p)
      → Valid e s
      → Valid e (record s { net = record s.net { queues = update s.net.queues p k } })
  requeued e p k s h o (hs, v) = (
    hs,
    record {
      tasks = v.tasks;
      queues = λ q hq present.
          let w = v.queues q hq present in
          record {
            holds =
                let (ys, holding, split) = w.holds in
                (ys, update_through held s.net.queues k p h q ∙ holding, split);
            order = w.order;
            nonnull = w.nonnull;
            real = ap (occurrences 0) (update_through owned_by s.net.queues k p o q) ∙ w.real;
          };
      live = λ a. v.live a ∙ (λ i.
          e a
          + total
              (λ q.
                occurrences a (sym (update_through owned_by s.net.queues k p o q) i)
                + occurrences a (hs q))
              (queues_of ts));
    },
  )

  -- The other tasks change the store only.
  pub worked :
      (e e' : ℕ → ℕ) (s : System Store) (store : Store) (ks : List ℕ)
      → ((a : ℕ) → blocks store a + e a ≡ blocks s.net.store a + e' a)
      → Valid e s
      → Valid e' (record s { net = record s.net { store = store }; kept = ks })
  worked e e' s store ks h (hs, v) = (
    hs,
    rewritten m ts e e' s (record s { net = record s.net { store = store }; kept = ks }) hs refl
        refl refl refl refl (λ q hq present. refl) h v,
  )

  pub produced :
      (e : ℕ → ℕ) (t : ℕ) (dst : String) (text : List ℕ) (s : System Store)
      → Fresh m
      → Distinct ts
      → Valid e s
      → Valid e (step m (produces t dst text) s)
  unfolding step
  produced e t dst text s fresh distinct (hs, v) =
      let q = os_task_aq_get dst s.net.tasks in
      let (msg, store) = malloc (msg_size + data_size) s.net.store in
      let s1 : System Store = record s { net = written m dst text s.net } in
      let w = written-IsConversing m ts e dst text s hs fresh v in
      elim (Bool-cases (q == 0)) [
        | inl z ↦
            let unknown : q ≡ 0 = ground (arith, z) in
            let s2 : System Store = record s1 {
              net = record s1.net { store = m.free msg store };
            } in
            rw (z, produce_unknown m ts t dst text s.net unknown)
              (
                hs,
                rewritten m ts (λ a. e a + bit (msg == a)) e s1 s2 hs refl refl refl refl refl
                    (λ q hq present. refl)
                    (λ a. omega (
                      arith,
                      m.malloc_blocks (msg_size + data_size) s.net.store a,
                      blocks-free-malloc m (msg_size + data_size) s.net.store a,
                    ))
                    w,
              )
        | inr z ↦
            let known : q ≢ 0 = ground (arith, z) in
            let one = aq_get_once dst ts distinct (rw v.tasks at known) in
            let line = update_self s.net.msgs msg (message dst text) in
            let end =
              deposited-IsConversing m ts (λ a. e a + bit (msg == a)) e t q msg s1 hs known
                (rw v.tasks one) (m.malloc_nonnull (msg_size + data_size) s.net.store) (λ a. refl)
                w in
            rw (z, produce_lem m t dst text s.net known)
              (update hs q (hs q ++ msg ∷ []), rw line at end)
      ]

  queue_once :
      (e : ℕ → ℕ) (u q : ℕ) (s : System Store) (hs : ℕ → List ℕ)
      → Distinct ts
      → q ≢ 0
      → os_task_aq_self u s.net.tasks ≡ q
      → IsConversing m ts e s hs
      → occurrences q (queues_of ts) ≡ 1
  queue_once e u q s hs distinct hq eq v =
      let own : os_task_aq_self u ts ≡ q = rw v.tasks at eq in
      let once = aq_self_once u ts distinct (λ z. hq (sym own ∙ z)) in rw own at once

  -- os_msg_recv returns to the consumer of the queue at `q`, which has no message in its hand.
  pub receives :
      (e : ℕ → ℕ) (u q : ℕ) (s : System Store)
      → Distinct ts
      → q ≢ 0
      → os_task_aq_self u s.net.tasks ≡ q
      → s.hand q ≡ 0
      → Valid e s
      → Valid e (received m q (os_msg_recv_resume m u s.net) s)
  unfolding received
  receives e u q s distinct hq eq empty (hs, v) =
      let (ys, holding, split) = (v.queues q hq (omega (arith, one))).holds in
      by_contents ys holding (rw empty at split)
    where
      one : occurrences q (queues_of ts) ≡ 1
      one = queue_once e u q s hs distinct hq eq v

      by_contents :
          (ys : List ℕ)
          → held (s.net.queues q) ≡ some ys
          → hs q ≡ ys
          → Valid e (received m q (os_msg_recv_resume m u s.net) s)
      by_contents [] holding ex = rw (recv_nothing m ts u q s.net eq hq holding) (
        hs,
        record {
          tasks = v.tasks;
          queues = λ p hp present.
              let other = v.queues p hp present in
              record {
                holds = other.holds;
                order = other.order ∙ (λ i.
                    sym
                      (update_through lines_of s.logged (s.logged q ++ none ∷ []) q
                        (lines_of-none (s.logged q)) p)
                      i
                    ++ map (line_at s.net.msgs) (hs p));
                nonnull = other.nonnull;
                real = other.real;
              };
          live = v.live;
        },
      )
      by_contents (x ∷ ys) holding ex =
          let w = v.queues q hq (omega (arith, one)) in
          let nonnull : x ≢ 0 = (rw ex at w.nonnull).0 in
          rw (recv_takes m ts u q x ys s eq hq holding, nonzero_test x nonnull)
            (hs, taken-IsConversing m ts e u q x s hs ys hq one nonnull holding ex v)

  -- The consumer of the queue at `q` logs the message in its hand, if any, and frees it.
  pub finished :
      (e : ℕ → ℕ) (u q : ℕ) (s : System Store)
      → Distinct ts
      → q ≢ 0
      → os_task_aq_self u s.net.tasks ≡ q
      → Valid e s
      → Valid e (ended m q (consumed m (s.hand q, s.net)) s)
  unfolding ended consumed
  finished e u q s distinct hq eq (hs, v) =
      let one = queue_once e u q s hs distinct hq eq v in
      let (ys, holding, split) = (v.queues q hq (omega (arith, one))).holds in
      elim (Bool-cases (s.hand q == 0)) [
        | inl z ↦ rw z (hs, v)
        | inr z ↦
            let nonnull : s.hand q ≢ 0 = ground (arith, z) in
            rw z (
              update hs q ys,
              freed-IsConversing m ts e q (s.hand q) s hs ys hq one nonnull holding (rw z at split)
                  v,
            )
      ]
