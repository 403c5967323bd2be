-- ===== src/Sockets/TcpServer.antt =====
-- platform/os/linux/base/os_tcp_server.c: connections that are accepted by one task and handled by
-- the threads of a pool.
use multi_task_app.Prelude.{ℕ, ◌==◌, ltb, ◌&&◌, if◌then◌else◌, Bool, Option, none, some, List, ◌∷◌}
use multi_task_app.Alloc.{Allocator, Libc}
use multi_task_app.Msg.{Net, update}
use multi_task_app.Task.Life.{Params, os_task_create}
use multi_task_app.Threadpool.{
  Threadpool, Created, returns, waits, os_threadpool_create, PoolTask, Work, os_threadpool_add,
}
use multi_task_app.Sockets.{Process, close}

-- struct os_tcp_server_s with its own address; `sem` counts the posts. `cb` is 0 for NULL.
pub record TcpServer : Type 0 where
  pub self : ℕ
  pub listen_fd : ℕ
  pub threads : ℕ
  pub listen_fds : ℕ
  pub port : ℕ
  pub task : ℕ
  pub cb : ℕ
  pub user_data : ℕ

-- os_tcp_server_node_t.
pub record TcpServerNode : Type 0 where
  pub conn_fd : ℕ
  pub cb : ℕ
  pub user_data : ℕ

-- What the kernel answers to socket, and whether bind, listen and pthread_create succeed.
pub record Answers : Type 0 where
  pub socket : Option ℕ
  pub bind : Bool
  pub listen : Bool
  pub pthread_create : Bool

abbrev pub tcp_server_queue_max : ℕ
tcp_server_queue_max = 10

-- sizeof(os_tcp_server_t) and of a node on a 64-bit target.
abbrev pub tcp_server_size : ℕ
tcp_server_size = 88

abbrev pub tcp_server_node_size : ℕ
tcp_server_node_size = 24

-- A call of a callback: its address, the connection and the user data.
abbrev pub Call : Type 0
Call = ℕ × ℕ × ℕ

-- The memory of a server at work: the pool's, the nodes, and the descriptors that are open.
pub record Serving (S : Type 0) : Type 0 where
  pub opened : List ℕ
  pub nodes : ℕ → TcpServerNode
  pub work : Work S

-- How the task comes to its loop: it serves with its pool, it ends with a post of `sem`, it never
-- gets on since the creation of the pool joins a worker, or it destroys a pool at an address that
-- nothing wrote.
pub data Started (S : Type 0) : Type 0 where
  serves : Threadpool → S → Started S
  ends : S → Started S
  joins faults : Started S

module _ (m : Allocator) (l : Libc m) where
  open m use {Store, malloc, free, blocks}

  -- The server is allocated and its task created; FREE(task) of a task that is NULL frees nothing.
  with_task :
      Answers → TcpServer → Params → Process (Net Store) → Option TcpServer × Process (Net Store)
  with_task k server c p =
      let (s, store) = malloc tcp_server_size p.store.store in
      let net : Net Store = record p.store { store = store } in
      let (task, net') = os_task_create m l k.pthread_create (record c { arg = s }) net in
      if s == 0
      then (none, record p { store = net })
      else if task == 0
      then (none, record p { store = net' })
      else (some (record server { self = s; task = task }), record p { store = net' })

  -- bind, then listen; no failure closes the socket. A socket 0 is refused, and stays open.
  bound :
      Answers
      → TcpServer
      → Params
      → Option ℕ
      → Process (Net Store)
      → Option TcpServer × Process (Net Store)
  unfolding with_task
  bound k server c none p = (none, p)
  bound k server c (some fd) p =
      let p' : Process (Net Store) = record p { opened = fd ∷ p.opened } in
      if fd == 0
      then (none, p')
      else if k.bind && k.listen
      then with_task k (record server { listen_fd = fd }) c p'
      else (none, p')

  -- `func` is the address of task_routine_tcp_server. The int parameters are those that are not
  -- negative. The task may run before the fields of the server are set; they are set here.
  unfoldable pub os_tcp_server_create :
      Answers → ℕ → ℕ → ℕ → ℕ → ℕ → ℕ → Process (Net Store) → Option TcpServer × Process (Net Store)
  unfolding bound
  os_tcp_server_create k func threads listen_fds port cb user_data p =
      let server : TcpServer = record {
        self = 0;
        listen_fd = 0;
        threads = threads;
        listen_fds = listen_fds;
        port = port;
        task = 0;
        cb = cb;
        user_data = user_data;
      } in
      let c : Params = record {
        name = "tcp_server_node";
        stack_size = 0;
        priority = 0;
        func = func;
        arg = 0;
      } in
      if ltb 0 threads && (ltb 0 listen_fds && ltb 0 port)
      then bound k server c k.socket p
      else (none, p)

  started : ℕ → Created Store → Started Store
  started junk (returns (some pool) s) = serves pool s
  started junk (returns none s) = if junk == 0 then ends s else faults
  started junk waits = joins

  -- task_routine_tcp_server up to its loop, where the fields of the server are set by then: `junk`
  -- is what MALLOC left in the field `pool`, which is read where no pool could be made.
  unfoldable pub task_routine_tcp_server : (ℕ → Bool) → ℕ → TcpServer → Store → Started Store
  unfolding started
  task_routine_tcp_server starts junk server s =
      started junk (os_threadpool_create m l starts server.threads tcp_server_queue_max s)

  -- os_tcp_server_destroy after sem_wait.
  unfoldable pub os_tcp_server_destroy : Option TcpServer → Process Store → Process Store
  os_tcp_server_destroy none p = p
  os_tcp_server_destroy (some s) p =
      let p' = close s.listen_fd p in record p' { store = free s.self p'.store }

  -- One round of the loop of task_routine_tcp_server, after accept: `routine` is the address of
  -- thread_pool_tcp_server_routine. A descriptor 0 is not handled. The signal prefers thread `t`.
  unfoldable pub accept_round : ℕ → ℕ → TcpServer → Option ℕ → Serving Store → Serving Store
  accept_round t routine server none x = x
  accept_round t routine server (some conn_fd) x =
      let (node, s) = malloc tcp_server_node_size x.work.store in
      let filled : TcpServerNode = record {
        conn_fd = conn_fd;
        cb = server.cb;
        user_data = server.user_data;
      } in
      let job : PoolTask = record { function = routine; argument = node } in
      let (added, work) =
        os_threadpool_add m l t tcp_server_queue_max job (record x.work { store = s }) in
      let opened = conn_fd ∷ x.opened in
      if conn_fd == 0
      then record x { opened = opened }
      else if node == 0
      then record x { opened = opened; work = record x.work { store = s } }
      else record { opened = opened; nodes = update x.nodes node filled; work = work }

  -- thread_pool_tcp_server_routine on the node at an address, up to the end of the callback: the
  -- call that is made, if any.
  unfoldable pub tcp_server_routine : ℕ → Serving Store → Option Call
  tcp_server_routine p x =
      let node = x.nodes p in
      if p == 0
      then none
      else if node.cb == 0
      then none
      else some (node.cb, node.conn_fd, node.user_data)

  -- The rest of thread_pool_tcp_server_routine.
  unfoldable pub routine_end : ℕ → Serving Store → Serving Store
  routine_end p x =
      if p == 0 then x else record x { work = record x.work { store = free p x.work.store } }
