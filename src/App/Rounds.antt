-- ===== src/App/Rounds.antt =====
-- What the rounds of the producer and of the other tasks do to the state of the tasks of init/main.c.
use multi_task_app.Prelude.{
  ℕ, ◌+◌, ◌≡◌, ◌≢◌, refl, ap, ◌∙◌, ◌==◌, bit, List, map, occurrences, arith, String,
}
use multi_task_app.Alloc.{Fresh, Allocator, malloc_check}
use multi_task_app.Task.{Task, os_task_aq_get}
use multi_task_app.Msg.{Net, msg_size, os_msg_send}
use multi_task_app.Msg.Delivery.{update_self}
use multi_task_app.Threadpool.Backed.{owned_by}
use multi_task_app.App.{data_size, message, produce}
use multi_task_app.App.Conversation.{written}
use multi_task_app.App.Scheduled.{System}
use multi_task_app.App.Accounts.{queues_of, total, one_of_total}
use multi_task_app.App.Conversing.{line_at, lines-update, charge, IsConversing, kept}

module _ (m : Allocator) (ts : List Task) where
  open m use {Store, blocks, malloc}

  -- Other blocks are live, and messages are written where none was.
  pub rewritten :
      (e e' : ℕ → ℕ) (s t : System Store) (hs : ℕ → List ℕ)
      → t.net.tasks ≡ s.net.tasks
      → t.net.queues ≡ s.net.queues
      → t.sent ≡ s.sent
      → t.logged ≡ s.logged
      → t.hand ≡ s.hand
      → ((q : ℕ)
          → q ≢ 0
          → occurrences q (queues_of ts) ≢ 0
          → map (line_at t.net.msgs) (hs q) ≡ map (line_at s.net.msgs) (hs q))
      → ((a : ℕ) → blocks t.net.store a + e a ≡ blocks s.net.store a + e' a)
      → IsConversing m ts e s hs
      → IsConversing m ts e' t hs
  rewritten e e' s t hs et eq es el eh em eb v = record {
    tasks = et ∙ v.tasks;
    queues = λ q h present.
        kept m ts q s t (hs q) (ap (λ f. f q) eq) (ap (λ f. f q) es) (ap (λ f. f q) el)
          (ap (λ f. f q) eh) (em q h present) (v.queues q h present);
    live = λ a.
        let same : total (charge t.net hs a) (queues_of ts)
            ≡ total (charge s.net hs a) (queues_of ts) =
          λ i.
            total (λ q. occurrences a (owned_by (eq i q)) + occurrences a (hs q)) (queues_of ts) in
        omega (arith, eb a, v.live a, same);
  }

  -- A message that malloc has just given is written.
  pub written-IsConversing :
      (e : ℕ → ℕ) (dst : String) (text : List ℕ) (s : System Store) (hs : ℕ → List ℕ)
      → Fresh m
      → IsConversing m ts e s hs
      → let msg = (malloc (msg_size + data_size) s.net.store).0 in
        IsConversing m ts
          (λ a. e a + bit (msg == a))
          (record s { net = written m dst text s.net })
          hs
  written-IsConversing e dst text s hs fresh v =
      let (msg, store) = malloc (msg_size + data_size) s.net.store in
      rewritten e (λ a. e a + bit (msg == a)) s (record s { net = written m dst text s.net }) hs
        refl refl refl refl refl
        (λ q h present. lines-update s.net.msgs msg (message dst text) (hs q) (
          omega (
            arith,
            fresh (msg_size + data_size) s.net.store,
            v.live msg,
            one_of_total (charge s.net hs msg) q (queues_of ts) present,
          )))
        (λ a. omega (arith, m.malloc_blocks (msg_size + data_size) s.net.store a)) v

  pub produce_unknown :
      (t : ℕ) (dst : String) (text : List ℕ) (n : Net Store)
      → os_task_aq_get dst n.tasks ≡ 0
      → produce m t dst text n ≡ record (written m dst text n) {
        store =
            m.free
              (malloc (msg_size + data_size) n.store).0
              (malloc (msg_size + data_size) n.store).1;
      }
  unfolding produce os_msg_send
  produce_unknown t dst text n h =
      let (msg, s) = malloc (msg_size + data_size) n.store in
      rw (malloc_check m (msg_size + data_size) n.store, update_self n.msgs msg (message dst text))
        (rw h refl)
