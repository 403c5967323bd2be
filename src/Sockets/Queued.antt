-- ===== src/Sockets/Queued.antt =====
-- The connections of a server of os_tcp_server.c between the events of a schedule, and what the
-- accepting of one does to them.
use multi_task_app.Prelude.{
  ℕ, ◌+◌, ◌≤◌, ◌≡◌, ◌≢◌, refl, sym, ap, ◌∙◌, ◌==◌, if◌then◌else◌, Bool, map, Option, none, some,
  List, [], ◌∷◌, ◌++◌, occurrences, arith,
}
use multi_task_app.Alloc.{Fresh, Allocator, Libc}
use multi_task_app.AsyncQueue.{AsyncQueue}
use multi_task_app.AsyncQueue.Fifo.{held, AllNonNull}
use multi_task_app.Msg.{update}
use multi_task_app.Msg.Delivery.{update_ne}
use multi_task_app.Threadpool.{PoolTask}
use multi_task_app.Threadpool.Backed.{owned_by, count, in_hands, AllCallable, Backed}
use multi_task_app.Sockets.TcpServer.{Call, TcpServer, TcpServerNode, tcp_server_node_size}
use multi_task_app.Sockets.Service.{Service}

pub real_of :
    (m : Allocator) (k : Option AsyncQueue) (s : m.Store)
    → Backed m k s
    → occurrences 0 (owned_by k) ≡ 0
real_of m none s v = refl
real_of m (some k) s v = v.nonnull

pub Backed-of :
    (m : Allocator) (k : Option AsyncQueue) (s : m.Store)
    → ((a : ℕ) → occurrences a (owned_by k) ≤ m.blocks s a)
    → occurrences 0 (owned_by k) ≡ 0
    → Backed m k s
Backed-of m none s live real = tt
Backed-of m (some k) s live real = record { live = live; nonnull = real }

-- The call that the routine makes for the node at an address, and the node of the task at one.
abbrev pub call_in : (ℕ → TcpServerNode) → ℕ → Option Call
call_in nodes p =
    if p == 0
    then none
    else if (nodes p).cb == 0
    then none
    else some ((nodes p).cb, (nodes p).conn_fd, (nodes p).user_data)

abbrev pub node_of : (ℕ → PoolTask) → ℕ → ℕ
node_of tasks p = (tasks p).argument

abbrev pub call_of : (ℕ → TcpServerNode) → (ℕ → PoolTask) → ℕ → Option Call
call_of nodes tasks p = call_in nodes (node_of tasks p)

-- The blocks of tasks and their nodes.
abbrev pub blocks_of : (ℕ → PoolTask) → ℕ → List ℕ → ℕ
blocks_of tasks a ps = occurrences a ps + occurrences a (map (node_of tasks) ps)

-- A task that is not listed is written.
pub tasks-update :
    {A : Type 0} (h : PoolTask → A) (tasks : ℕ → PoolTask) (p : ℕ) (task : PoolTask) (ps : List ℕ)
    → occurrences p ps ≡ 0
    → map (λ q. h (update tasks p task q)) ps ≡ map (λ q. h (tasks q)) ps
tasks-update h tasks p task [] e = refl
tasks-update h tasks p task (x ∷ ps) e =
    let other : x ≢ p = ground (arith, e) in
    rw (update_ne tasks p task x other)
      (ap (λ l. h (tasks x) ∷ l) (tasks-update h tasks p task ps (omega (arith, e))))

-- A node that no listed task has is written.
pub nodes-update :
    (nodes : ℕ → TcpServerNode) (tasks : ℕ → PoolTask) (v : ℕ) (node : TcpServerNode) (ps : List ℕ)
    → occurrences v (map (node_of tasks) ps) ≡ 0
    → map (call_of (update nodes v node) tasks) ps ≡ map (call_of nodes tasks) ps
nodes-update nodes tasks v node [] e = refl
nodes-update nodes tasks v node (x ∷ ps) e =
    let other : (tasks x).argument ≢ v = ground (arith, e) in
    rw (update_ne nodes v node (tasks x).argument other)
      (ap (λ l. call_of nodes tasks x ∷ l) (nodes-update nodes tasks v node ps (omega (arith, e))))

module _ (m : Allocator) (l : Libc m) (routine : ℕ) (server : TcpServer) where
  open m use {Store, blocks, malloc}

  abbrev pub job : ℕ → PoolTask
  job node = record { function = routine; argument = node }

  abbrev pub filled : ℕ → TcpServerNode
  filled conn_fd = record { conn_fd = conn_fd; cb = server.cb; user_data = server.user_data }

  -- The call that is due for a connection.
  abbrev pub due : ℕ → Option Call
  due conn_fd = some (server.cb, conn_fd, server.user_data)

  -- The queue holds the tasks at `xs`, for the connections that were taken on and not taken by a
  -- worker; what workers took was called or is in their hands; and no block has two uses.
  pub record IsServing (x : Service Store) (xs : List ℕ) : Type 0 where
    pub holds : held x.serving.work.queue ≡ some xs
    pub order :
        map due x.accepted ≡ x.taken ++ map (call_of x.serving.nodes x.serving.work.tasks) xs
    pub counts :
        (f : Option Call → Bool)
        → count f x.taken
          ≡ count f x.called
            + count f (map (call_of x.serving.nodes x.serving.work.tasks) (in_hands x.holding))
    pub callable : AllCallable (map x.serving.work.tasks xs)
    pub nonnull : AllNonNull xs
    pub real : occurrences 0 (owned_by x.serving.work.queue) ≡ 0
    pub live :
        (a : ℕ)
        → occurrences a (owned_by x.serving.work.queue)
            + blocks_of x.serving.work.tasks a xs
            + blocks_of x.serving.work.tasks a (in_hands x.holding)
            + blocks_of x.serving.work.tasks a (in_hands x.calling)
          ≤ blocks x.serving.work.store a

  abbrev pub Served : Service Store → Type 0
  Served x = (xs : List ℕ) × IsServing x xs

  -- The connection is not taken on: its node stays.
  pub refused :
      (conn_fd : ℕ) (x : Service Store) (xs : List ℕ)
      → Fresh m
      → let (v, s) = malloc tcp_server_node_size x.serving.work.store in
        IsServing x xs
        → IsServing
            (record x {
              serving = record {
                opened = conn_fd ∷ x.serving.opened;
                nodes = update x.serving.nodes v (filled conn_fd);
                work = record x.serving.work { store = s };
              };
            })
            xs
  refused conn_fd x xs fresh h =
      let w = x.serving.work in
      let (v, s) = malloc tcp_server_node_size w.store in
      let new = fresh tcp_server_node_size w.store in
      let same = nodes-update x.serving.nodes w.tasks v (filled conn_fd) in
      record {
        holds = h.holds;
        order = h.order ∙ (λ i. x.taken ++ sym (same xs (omega (arith, h.live v, new))) i);
        counts = λ f. h.counts f ∙ (λ i.
            count f x.called
            + count f (sym (same (in_hands x.holding) (omega (arith, h.live v, new))) i));
        callable = h.callable;
        nonnull = h.nonnull;
        real = h.real;
        live = λ a. omega (arith, h.live a, m.malloc_blocks tcp_server_node_size w.store a);
      }
