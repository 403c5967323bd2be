-- ===== src/Sockets/Accepted.antt =====
-- What the accepting of a connection does to those of a server of os_tcp_server.c.
use mathlib.Core.List.{map-append}
use multi_task_app.Prelude.{
  ℕ, ◌+◌, ◌≡◌, ◌≢◌, refl, sym, ap, ◌∙◌, ◌==◌, false, true, bit, Bool-cases, Option-cases, inl, inr,
  map, none, some, List, [], ◌∷◌, ◌++◌, append_assoc, occurrences, occurrences-append, arith,
}
use multi_task_app.Alloc.{Fresh, LibcFresh, Allocator, Libc, malloc_check}
use multi_task_app.AsyncQueue.{os_async_queue_push}
use multi_task_app.AsyncQueue.Fifo.{AllNonNull-append, push-held}
use multi_task_app.Msg.{update}
use multi_task_app.Msg.Delivery.{update_self, pushed_self}
use multi_task_app.Threadpool.{PoolTask, Work, pool_task_size, os_threadpool_add}
use multi_task_app.Threadpool.Backed.{count, in_hands, AllCallable-append, push-Backed}
use multi_task_app.Sockets.TcpServer.{
  TcpServer, TcpServerNode, Serving, tcp_server_node_size, tcp_server_queue_max, accept_round,
}
use multi_task_app.Sockets.Service.{accepts, Service, takes_on, step}
use multi_task_app.Sockets.Queued.{
  real_of, Backed-of, call_in, node_of, call_of, tasks-update, nodes-update, job, filled, due,
  IsServing, Served, refused,
}

module _ (m : Allocator) (l : Libc m) (routine : ℕ) (server : TcpServer) where
  open m use {Store, blocks, malloc}

  filled_call :
      (nodes : ℕ → TcpServerNode) (v conn_fd : ℕ)
      → v ≢ 0
      → server.cb ≢ 0
      → call_in (update nodes v (filled m l routine server conn_fd)) v
        ≡ due m l routine server conn_fd
  filled_call nodes v conn_fd hv hc =
      let real : (v == 0) ≡ false = ground (arith, hv) in
      let callable : (server.cb == 0) ≡ false = ground (arith, hc) in
      rw (real, update_self nodes v (filled m l routine server conn_fd), callable) refl

  -- The connection is taken on: its node is at `v`, and its task at `p`.
  taken_on :
      (t p conn_fd : ℕ) (s2 : Store) (x : Service Store) (xs : List ℕ)
      → Fresh m
      → LibcFresh m l
      → routine ≢ 0
      → server.cb ≢ 0
      → let (v, s) = malloc tcp_server_node_size x.serving.work.store in
        let w = x.serving.work in
        let (queue, s3) = os_async_queue_push m t w.queue p s2 in
        l.libc_malloc pool_task_size s ≡ some (p, s2)
        → IsServing m l routine server x xs
        → IsServing m l routine server
            (record x {
              serving = record {
                opened = conn_fd ∷ x.serving.opened;
                nodes = update x.serving.nodes v (filled m l routine server conn_fd);
                work = record {
                  queue = queue;
                  tasks = update w.tasks p (job m l routine server v);
                  store = s3;
                };
              };
              accepted = x.accepted ++ conn_fd ∷ [];
            })
            (xs ++ p ∷ [])
  taken_on t p conn_fd s2 x xs fresh fresh' hr hc e h =
      let w = x.serving.work in
      let (v, s) = malloc tcp_server_node_size w.store in
      let task = job m l routine server v in
      let nodes' = update x.serving.nodes v (filled m l routine server conn_fd) in
      let tasks' = update w.tasks p task in
      let nonzero = l.libc_malloc_nonnull pool_task_size p s s2 e in
      let one_more = m.malloc_blocks tcp_server_node_size w.store in
      let more : (a : ℕ) → blocks s2 a ≡ blocks s a + bit (p == a) =
        λ a. l.libc_malloc_blocks pool_task_size p s s2 a e in
      let b = Backed-of m w.queue s2 (λ a. omega (arith, more a, one_more a, h.live a)) h.real in
      let (backed, same) = push-Backed m t p w.queue s2 nonzero b in
      let new_node = fresh tcp_server_node_size w.store in
      let new_task = fresh' pool_task_size p s s2 e in
      let hp = in_hands x.holding in
      let kp = in_hands x.calling in
      let calls : (ps : List ℕ)
          → occurrences p ps ≡ 0
          → occurrences v (map (node_of w.tasks) ps) ≡ 0
          → map (call_of nodes' tasks') ps ≡ map (call_of x.serving.nodes w.tasks) ps =
        λ ps z z'.
          tasks-update (λ k. call_in nodes' k.argument) w.tasks p task ps z
          ∙ nodes-update x.serving.nodes w.tasks v (filled m l routine server conn_fd) ps z' in
      let its_nodes : (ps : List ℕ)
          → occurrences p ps ≡ 0
          → map (node_of tasks') ps ≡ map (node_of w.tasks) ps =
        λ ps z. tasks-update (λ k. k.argument) w.tasks p task ps z in
      let functions : map tasks' xs ≡ map w.tasks xs =
        tasks-update (λ k. k) w.tasks p task xs (omega (arith, h.live p, one_more p, new_task)) in
      let call_p : call_of nodes' tasks' p ≡ due m l routine server conn_fd =
        ap (λ k. call_in nodes' k.argument) (update_self w.tasks p task)
        ∙ filled_call x.serving.nodes v conn_fd (m.malloc_nonnull _ w.store) hc in
      record {
        holds =
            push-held m t p w.queue s2 xs h.holds
            ∙ ap (λ q. some (xs ++ q)) (pushed_self t p nonzero);
        order =
            map-append (due m l routine server) x.accepted (conn_fd ∷ [])
            ∙ ap (λ q. q ++ due m l routine server conn_fd ∷ []) h.order
            ∙ append_assoc x.taken (map (call_of x.serving.nodes w.tasks) xs) _
            ∙ (λ i.
                x.taken
                ++ (sym
                      (calls xs (omega (arith, h.live p, one_more p, new_task))
                        (omega (arith, h.live v, new_node)))
                      i
                    ++ sym call_p i ∷ []))
            ∙ ap (λ q. x.taken ++ q) (sym (map-append (call_of nodes' tasks') xs (p ∷ [])));
        counts = λ f. h.counts f ∙ (λ i.
            count f x.called
            + count f (
                sym
                  (calls hp (omega (arith, h.live p, one_more p, new_task))
                    (omega (arith, h.live v, new_node)))
                  i));
        callable =
            rw (map-append tasks' xs (p ∷ []), functions, update_self w.tasks p task)
              (AllCallable-append (map w.tasks xs) (task ∷ []) h.callable (hr, tt));
        nonnull = AllNonNull-append xs (p ∷ []) h.nonnull (nonzero, tt);
        real = real_of m _ _ backed;
        live = λ a. omega (
          arith,
          same a,
          more a,
          one_more a,
          h.live a,
          occurrences-append a xs (p ∷ []),
          ap (occurrences a) (map-append (node_of tasks') xs (p ∷ [])),
          occurrences-append a (map (node_of tasks') xs) (node_of tasks' p ∷ []),
          ap (λ k. bit (k.argument == a)) (update_self w.tasks p task),
          ap (occurrences a) (its_nodes xs (omega (arith, h.live p, one_more p, new_task))),
          ap (occurrences a) (its_nodes hp (omega (arith, h.live p, one_more p, new_task))),
          ap (occurrences a) (its_nodes kp (omega (arith, h.live p, one_more p, new_task))),
        );
      }

  add_refused :
      (t : ℕ) (task : PoolTask) (w : Work Store)
      → l.libc_malloc pool_task_size w.store ≡ none
      → os_threadpool_add m l t tcp_server_queue_max task w ≡ (false, w)
  unfolding os_threadpool_add
  add_refused t task w f = rw f refl

  add_taken :
      (t p : ℕ) (task : PoolTask) (w : Work Store) (s : Store)
      → l.libc_malloc pool_task_size w.store ≡ some (p, s)
      → let (queue, s') = os_async_queue_push m t w.queue p s in
        os_threadpool_add m l t tcp_server_queue_max task w
        ≡ (true, record { queue = queue; tasks = update w.tasks p task; store = s' })
  unfolding os_threadpool_add
  add_taken t p task w s f = rw f refl

  accept_round_lem :
      (t conn_fd : ℕ) (x : Serving Store)
      → conn_fd ≢ 0
      → let (v, s) = malloc tcp_server_node_size x.work.store in
        accept_round m l t routine server (some conn_fd) x ≡ record {
          opened = conn_fd ∷ x.opened;
          nodes = update x.nodes v (filled m l routine server conn_fd);
          work =
              (os_threadpool_add m l t tcp_server_queue_max
                (job m l routine server v)
                (record x.work { store = s })).1;
        }
  unfolding accept_round
  accept_round_lem t conn_fd x h =
      let given : (conn_fd == 0) ≡ false = ground (arith, h) in
      rw (given, malloc_check m tcp_server_node_size x.work.store) refl

  pub accept-Served :
      (t conn_fd : ℕ) (x : Service Store)
      → Fresh m
      → LibcFresh m l
      → routine ≢ 0
      → server.cb ≢ 0
      → Served m l routine server x
      → Served m l routine server (step m l routine server (accepts t conn_fd) x)
  unfolding step
  accept-Served t conn_fd x fresh fresh' hr hc (xs, h) =
      let w = x.serving.work in
      let (v, s) = malloc tcp_server_node_size w.store in
      let w' : Work Store = record w { store = s } in
      elim (Bool-cases (conn_fd == 0)) [
        | inl z ↦ rw z (
            unfold accept_round in
            rw z (
              xs,
              record {
                holds = h.holds;
                order = h.order;
                counts = h.counts;
                callable = h.callable;
                nonnull = h.nonnull;
                real = h.real;
                live = h.live;
              },
            ))
        | inr z ↦
            let given : conn_fd ≢ 0 = ground (arith, z) in
            let round = accept_round_lem t conn_fd x.serving given in
            elim (Option-cases (l.libc_malloc pool_task_size s)) [
              | inl f ↦
                  let added = add_refused t (job m l routine server v) w' f in
                  let left : takes_on m l routine server t x.serving ≡ false =
                    unfold takes_on in ap (λ r. r.0) added in
                  rw (z, left, round, added) (xs, refused m l routine server conn_fd x xs fresh h)
              | inr ((p, s2), f) ↦
                  let added = add_taken t p (job m l routine server v) w' s2 f in
                  let taken : takes_on m l routine server t x.serving ≡ true =
                    unfold takes_on in ap (λ r. r.0) added in
                  rw (z, taken, round, added)
                    (_, taken_on t p conn_fd s2 x xs fresh fresh' hr hc f h)
            ]
      ]
