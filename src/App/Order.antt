-- ===== src/App/Order.antt =====
-- The tasks of init/main.c in any order of their steps: what the consumers log, and the memory in use.
use multi_task_app.Prelude.{
  ℕ, ◌+◌, ◌-◌, ◌≤◌, ◌≡◌, ◌≢◌, refl, some, List, [], ◌++◌, map, occurrences, arith,
}
use multi_task_app.Alloc.{Fresh, Allocator}
use multi_task_app.AsyncQueue.Fifo.{held}
use multi_task_app.Msg.{Net}
use multi_task_app.Threadpool.Backed.{owned_by}
use multi_task_app.App.Scheduled.{Event, System, run}
use multi_task_app.App.Accounts.{queues_of, Distinct, total}
use multi_task_app.App.Conversing.{lines_of, line_at, in_hand, charge}
use multi_task_app.App.Steps.{Valid}
use multi_task_app.App.Runs.{elsewhere, run-Valid}

module _ (m : Allocator) where
  open m use {Store, blocks}

  -- The system before its first event.
  abbrev pub start : Net Store → System Store
  start n = record { net = n; sent = λ q. []; logged = λ q. []; hand = λ q. 0; kept = [] }

  abbrev pub nothing : ℕ → List ℕ
  nothing q = []

  -- Each task's queue is empty, and none of its blocks is at NULL.
  abbrev pub AllEmpty : Net Store → Type 0
  AllEmpty n =
      (q : ℕ)
      → q ≢ 0
      → occurrences q (queues_of n.tasks) ≢ 0
      → (held (n.queues q) ≡ some []) × (occurrences 0 (owned_by (n.queues q)) ≡ 0)

  -- The blocks that the queues have at first.
  abbrev pub own_blocks : Net Store → ℕ → ℕ
  own_blocks n a = total (charge n nothing a) (queues_of n.tasks)

  pub start-Valid :
      (n : Net Store)
      → AllEmpty n
      → ((a : ℕ) → own_blocks n a ≤ blocks n.store a)
      → Valid m n.tasks
          (elsewhere m n.tasks (λ a. blocks n.store a - own_blocks n a) (start n))
          (start n)
  start-Valid n empty live = (
    nothing,
    record {
      tasks = refl;
      queues = λ q hq present. record {
        holds = ([], (empty q hq present).0, refl);
        order = refl;
        nonnull = tt;
        real = (empty q hq present).1;
      };
      live = λ a. omega (arith, live a);
    },
  )

  -- The consumers log what was sent to them, in order, and the blocks that the tasks hold are
  -- accounted for, in whatever order the steps of the tasks come: the call of os_msg_recv, its return
  -- and the log with the FREE are three steps of a consumer, and a half of the producer's loop or a
  -- round of no1, no2 or normal is one. If the tasks have different queues, which are empty at first
  -- and whose blocks are live, and malloc gives no address where a block is live, then for each
  -- task's queue the sources and bytes sent to it are those that its consumer logged, followed by
  -- those of the message that the consumer has taken and not logged, if any, and of the messages that
  -- the queue still holds. At each address, the live blocks, without those of the traces that MALLOC
  -- keeps, are those of before, those that the tasks no1 and no2 kept, and what the queues and the
  -- consumers have more than before of blocks and messages.
  pub logged_in_order :
      (evs : List Event) (n : Net Store)
      → Fresh m
      → Distinct n.tasks
      → AllEmpty n
      → ((a : ℕ) → own_blocks n a ≤ blocks n.store a)
      → let end = run m evs (start n) in
        (hs : ℕ → List ℕ) × ((q : ℕ)
          → q ≢ 0
          → occurrences q (queues_of n.tasks) ≢ 0
          → (ys : List ℕ) × (held (end.net.queues q) ≡ some ys)
            × (hs q ≡ in_hand (end.hand q) ++ ys)
            × (end.sent q ≡ lines_of (end.logged q) ++ map (line_at end.net.msgs) (hs q)))
        × ((a : ℕ)
            → blocks end.net.store a + own_blocks n a
              ≡ blocks n.store a
                + occurrences a end.kept
                + total (charge end.net hs a) (queues_of n.tasks))
  logged_in_order evs n fresh distinct empty live =
      let (hs, v) =
        run-Valid m n.tasks evs (λ a. blocks n.store a - own_blocks n a) (start n) fresh distinct
          (start-Valid n empty live) in
      (
        hs,
        λ q hq present.
            let w = v.queues q hq present in
            let (ys, holding, split) = w.holds in (ys, holding, split, w.order),
        λ a. omega (arith, v.live a, live a),
      )
