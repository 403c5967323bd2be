-- ===== src/App/Conversation.antt =====
-- A message of the producer and the consumer that receives it.
use multi_task_app.Prelude.{ℕ, ◌+◌, ◌≡◌, ◌≢◌, refl, ◌∙◌, ap, some, List, String, arith}
use multi_task_app.Alloc.{Allocator, malloc_check, blocks-free-malloc}
use multi_task_app.Queue.{queue_size}
use multi_task_app.Task.{os_task_aq_get, os_task_aq_self}
use multi_task_app.Msg.{Msg, Net, update, msg_size, push_at, os_msg_send, os_msg_recv_resume}
use multi_task_app.AsyncQueue.{AsyncQueue}
use multi_task_app.Msg.Delivery.{update_self, nonzero_test, emptied, recv_pushed}
use multi_task_app.App.{data_size, padded, message, produce, task_routine_consumer}

module _ (m : Allocator) where
  open m use {Store, blocks, malloc}

  -- The message in the memory that `produce` allocates for it.
  abbrev pub written : String → List ℕ → Net Store → Net Store
  written dst text n =
      let (msg, s) = malloc (msg_size + data_size) n.store in
      record n { msgs = update n.msgs msg (message dst text); store = s }

  pub produce_lem :
      (t : ℕ) (dst : String) (text : List ℕ) (n : Net Store)
      → os_task_aq_get dst n.tasks ≢ 0
      → produce m t dst text n
        ≡ push_at m t
            (os_task_aq_get dst n.tasks)
            (malloc (msg_size + data_size) n.store).0
            (written dst text n)
  unfolding produce os_msg_send
  produce_lem t dst text n h =
      let (msg, s) = malloc (msg_size + data_size) n.store in
      rw (malloc_check m (msg_size + data_size) n.store, update_self n.msgs msg (message dst text))
        (rw (nonzero_test (os_task_aq_get dst n.tasks) h) refl)

  consume_lem :
      (u msg : ℕ) (n : Net Store) (sent : Msg) (s : Store)
      → msg ≢ 0
      → let (r, n') = os_msg_recv_resume m u n in
        r ≡ msg
        → n'.msgs msg ≡ sent
        → n'.store ≡ s
        → (end : Net Store) × (task_routine_consumer m u n ≡ some ((sent.src, sent.bytes), end))
          × (end.store ≡ m.free msg s)
  unfolding task_routine_consumer
  consume_lem u msg n sent s h e em es =
      let (r, n') = os_msg_recv_resume m u n in
      rw (e, nonzero_test msg h, em)
        (record n' { store = m.free msg n'.store }, refl, ap (m.free msg) es)

  -- A message of the producer to a task that waits with an empty queue is received: the round of
  -- the consumer that resumes next on that task's thread logs the producer's name and the 32 bytes
  -- of the text and its padding. The message and its node are freed: at each address there are as
  -- many live blocks as before.
  pub task_routine_consumer-produce :
      (t u a : ℕ) (dst : String) (text : List ℕ) (k : AsyncQueue) (n : Net Store)
      → let q = os_task_aq_get dst n.tasks in
        q ≢ 0
        → os_task_aq_self u n.tasks ≡ q
        → n.queues q ≡ some (emptied m a k)
        → (end : Net Store) × (task_routine_consumer m u (produce m t dst text n)
            ≡ some ((some "producer", padded data_size text), end))
          × ((x : ℕ) → blocks end.store x ≡ blocks n.store x)
  task_routine_consumer-produce t u a dst text k n hq eq e =
      let q = os_task_aq_get dst n.tasks in
      let (msg, s) = malloc (msg_size + data_size) n.store in
      let (node, s') = malloc queue_size s in
      let n' = written dst text n in
      let nonnull = m.malloc_nonnull (msg_size + data_size) n.store in
      let (r, es, em) = recv_pushed m t u q msg a k n' eq hq nonnull e in
      let sent = update_self n.msgs msg (message dst text) in
      let (end, logged, freed) =
        consume_lem u msg (push_at m t q msg n') (message dst text) (m.free node s') nonnull r
          (ap (λ f. f msg) em ∙ sent) es in
      rw (produce_lem t dst text n hq) (
        end,
        logged,
        λ x.
            ap (λ z. blocks z x) freed
            ∙ omega (
              arith,
              m.malloc_blocks (msg_size + data_size) n.store x,
              blocks-free-malloc m queue_size s x,
              m.free_blocks msg (m.free node s') x nonnull,
            ),
      )
