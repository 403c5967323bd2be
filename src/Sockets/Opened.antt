-- ===== src/Sockets/Opened.antt =====
-- What os_tcp_server_create of os_tcp_server.c leaves where it fails.
use multi_task_app.Prelude.{
  ℕ, ◌+◌, ◌≡◌, ◌≢◌, refl, ◌==◌, ltb, ◌&&◌, true, false, if◌then◌else◌, Bool-cases, inl, inr, bit,
  none, some, ◌∷◌, arith,
}
use multi_task_app.Alloc.{Allocator, Libc, malloc_check}
use multi_task_app.Msg.{Net}
use multi_task_app.Task.Life.{Params, task_size}
use multi_task_app.Task.Spawned.{NoTaskAt, task_create_undone}
use multi_task_app.Sockets.{Process}
use multi_task_app.Sockets.TcpServer.{Answers, tcp_server_size, os_tcp_server_create}

module _ (m : Allocator) (l : Libc m) where
  open m use {Store, malloc, blocks}

  -- os_tcp_server_create that fails behind socket gives nothing back: the call returns NULL, the
  -- socket stays open, and where bind and listen succeeded and the thread of the task cannot be
  -- created, the block of the server stays too. The tasks are as they were, if malloc gave an
  -- address where no task stands.
  pub os_tcp_server_create_leaks :
      (k : Answers) (func threads listen_fds port cb user_data fd self : ℕ)
      (p : Process (Net Store)) (s : Store)
      → threads ≢ 0
      → listen_fds ≢ 0
      → port ≢ 0
      → k.socket ≡ some fd
      → fd ≢ 0
      → (k.bind && k.listen && k.pthread_create) ≡ false
      → let (server, t) = malloc tcp_server_size p.store.store in
        l.libc_malloc task_size t ≡ some (self, s)
        → NoTaskAt self p.store.tasks
        → let (r, p') = os_tcp_server_create m l k func threads listen_fds port cb user_data p in
          (r ≡ none)
          × (p'.opened ≡ fd ∷ p.opened)
          × (p'.store.tasks ≡ p.store.tasks)
          × ((a : ℕ)
              → blocks p'.store.store a
                ≡ blocks p.store.store a + (if k.bind && k.listen then bit (server == a) else 0))
  unfolding os_tcp_server_create
  os_tcp_server_create_leaks k func threads listen_fds port cb user_data fd self p s ht hl hp es hf
        fails e h =
      let (server, t) = malloc tcp_server_size p.store.store in
      let net : Net Store = record p.store { store = t } in
      let c : Params = record {
        name = "tcp_server_node";
        stack_size = 0;
        priority = 0;
        func = func;
        arg = server;
      } in
      let given : (ltb 0 threads && (ltb 0 listen_fds && ltb 0 port)) ≡ true =
        ground (arith, ht, hl, hp) in
      let real : (fd == 0) ≡ false = ground (arith, hf) in
      elim (Bool-cases (k.bind && k.listen)) [
        | inl b ↦
            let (null, tasks, undone) = task_create_undone m l c net self s e h in
            let refused : k.pthread_create ≡ false = ground (arith, b, fails) in
            rw (given, es, real, b, refused, malloc_check m tcp_server_size p.store.store)
              (rw null (
                refl,
                refl,
                tasks,
                λ a. omega (arith, undone a, m.malloc_blocks tcp_server_size p.store.store a),
              ))
        | inr b ↦ rw (given, es, real, b) (refl, refl, refl, λ a. omega arith)
      ]
