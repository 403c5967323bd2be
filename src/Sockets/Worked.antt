-- ===== src/Sockets/Worked.antt =====
-- What the steps of a worker do to the connections of a server of os_tcp_server.c.
use multi_task_app.Prelude.{
  ℕ, ◌+◌, ◌≤◌, ◌≡◌, ◌≢◌, ◌⊎◌, refl, sym, ap, ◌∙◌, ◌==◌, false, bit, Bool-cases, inl, inr, map, none,
  some, List, [], ◌∷◌, ◌++◌, append_assoc, head_or, drop_first, occurrences, arith,
}
use multi_task_app.Alloc.{Allocator, Libc}
use multi_task_app.AsyncQueue.{os_async_queue_pop_resume}
use multi_task_app.AsyncQueue.Fifo.{AllNonNull, pop-held}
use multi_task_app.Threadpool.{Work, worker_pop, worker_call, worker_free}
use multi_task_app.Threadpool.Backed.{
  sum, count-append, count-map, occurrences-map, in_hands, part_cases, AllCallable, pop-Backed,
}
use multi_task_app.Threadpool.System.{Hands}
use multi_task_app.Sockets.TcpServer.{TcpServer, tcp_server_routine, routine_end}
use multi_task_app.Sockets.Service.{
  calls, frees, Service, note_taken, note_called, note_freed, step,
}
use multi_task_app.Sockets.Queued.{real_of, Backed-of, node_of, call_of, IsServing, Served}

module _ (m : Allocator) (l : Libc m) (routine : ℕ) (server : TcpServer) where
  open m use {Store, blocks, malloc}

  -- What a worker finds at the address `r` that it took.
  worker_call_cases :
      (xs : List ℕ) (w : Work Store) (r : ℕ)
      → r ≡ head_or 0 xs
      → AllNonNull xs
      → AllCallable (map w.tasks xs)
      → ((xs ≡ []) × (worker_call m l r w ≡ none))
        ⊎ ((ys : List ℕ) × (xs ≡ r ∷ ys) × (worker_call m l r w ≡ some (w.tasks r)))
  unfolding worker_call
  worker_call_cases [] w r e n c = inl (refl, rw e refl)
  worker_call_cases (x ∷ xs) w r e n c =
      let real : (x == 0) ≡ false = ground (arith, n.0) in
      let given : ((w.tasks x).function == 0) ≡ false = ground (arith, c.0) in
      rw e (inr (xs, refl, rw (real, given) refl))

  -- The pop of a worker, noted.
  abbrev pub took : ℕ → Service Store → Service Store
  took u x =
      let (p, w) = worker_pop m l u x.serving.work in
      note_taken m l routine server (worker_call m l p w) u p
        (record x { serving = record x.serving { work = w } })

  pub take-Served :
      (u : ℕ) (x : Service Store)
      → Served m l routine server x
      → Served m l routine server (took u x)
  unfolding worker_pop note_taken tcp_server_routine
  take-Served u x (xs, h) =
      let w = x.serving.work in
      let b = Backed-of m w.queue w.store (λ a. omega (arith, h.live a)) h.real in
      let (r, q, s) = os_async_queue_pop_resume m w.queue u w.store in
      let (result, rest) = pop-held m u w.queue w.store xs h.holds in
      let (backed, same) = pop-Backed m u w.queue w.store b in
      let w' : Work Store = record w { queue = q; store = s } in
      elim (worker_call_cases xs w' r result h.nonnull h.callable) [
        | inl (ex, e) ↦ rw e (
          [],
          record {
            holds = rest ∙ ap (λ k. some (drop_first k)) ex;
            order = h.order ∙ (λ i. x.taken ++ map (call_of x.serving.nodes w.tasks) (ex i));
            counts = h.counts;
            callable = tt;
            nonnull = tt;
            real = real_of m q s backed;
            live = λ a. omega (arith, h.live a, same a);
          },
        )
        | inr (ys, ex, e) ↦
            let counted : (a : ℕ) → occurrences a xs ≡ bit (r == a) + occurrences a ys =
              λ a. ap (occurrences a) ex in
            let counted_nodes : (a : ℕ)
                → occurrences a (map (node_of w.tasks) xs)
                  ≡ bit (node_of w.tasks r == a) + occurrences a (map (node_of w.tasks) ys) =
              λ a. ap (λ k. occurrences a (map (node_of w.tasks) k)) ex in
            let call = call_of x.serving.nodes w.tasks r in
            rw e (
              ys,
              record {
                holds = rest ∙ ap (λ k. some (drop_first k)) ex;
                order =
                    h.order
                    ∙ (λ i. x.taken ++ map (call_of x.serving.nodes w.tasks) (ex i))
                    ∙ sym (append_assoc x.taken (call ∷ []) _);
                counts = λ f. omega (arith, h.counts f, count-append f x.taken (call ∷ []));
                callable = (rw ex at h.callable).1;
                nonnull = (rw ex at h.nonnull).1;
                real = real_of m q s backed;
                live = λ a. omega (arith, h.live a, same a, counted a, counted_nodes a);
              },
            )
      ]

  pub call-Served :
      (u : ℕ) (x : Service Store)
      → Served m l routine server x
      → Served m l routine server (step m l routine server (calls u) x)
  unfolding step note_called tcp_server_routine
  call-Served u x (xs, h) = elim (part_cases u x.holding) [
    | inl e ↦ rw e (xs, h)
    | inr (p, rest, e, addresses, sums) ↦
        let tasks = x.serving.work.tasks in
        let call = call_of x.serving.nodes tasks in
        rw e (
          xs,
          record {
            holds = h.holds;
            order = h.order;
            counts = λ f. omega (
              arith,
              h.counts f,
              sums (λ q. bit (f (call q))),
              count-map f call (in_hands x.holding),
              count-map f call (in_hands rest),
              count-append f x.called (call p ∷ []),
            );
            callable = h.callable;
            nonnull = h.nonnull;
            real = h.real;
            live = λ a. omega (
              arith,
              h.live a,
              addresses a,
              sums (λ q. bit (node_of tasks q == a)),
              occurrences-map a (node_of tasks) (in_hands x.holding),
              occurrences-map a (node_of tasks) (in_hands rest),
            );
          },
        )
  ]

  -- The task at `p` and its node are freed, and no other block.
  lessened :
      (p : ℕ) (s : Store) (rest : Hands) (x : Service Store) (xs : List ℕ)
      → ((a : ℕ)
          → blocks x.serving.work.store a
            ≤ blocks s a + bit (p == a) + bit (node_of x.serving.work.tasks p == a))
      → ((a : ℕ)
          → occurrences a (in_hands x.calling) ≡ bit (p == a) + occurrences a (in_hands rest))
      → ((g : ℕ → ℕ) → sum g (in_hands x.calling) ≡ g p + sum g (in_hands rest))
      → IsServing m l routine server x xs
      → IsServing m l routine server
          (record x {
            serving = record x.serving { work = record x.serving.work { store = s } };
            calling = rest;
          })
          xs
  lessened p s rest x xs kept addresses sums h =
      let tasks = x.serving.work.tasks in
      record {
        holds = h.holds;
        order = h.order;
        counts = h.counts;
        callable = h.callable;
        nonnull = h.nonnull;
        real = h.real;
        live = λ a. omega (
          arith,
          h.live a,
          kept a,
          addresses a,
          sums (λ q. bit (node_of tasks q == a)),
          occurrences-map a (node_of tasks) (in_hands x.calling),
          occurrences-map a (node_of tasks) (in_hands rest),
        );
      }

  pub free-Served :
      (u : ℕ) (x : Service Store)
      → Served m l routine server x
      → Served m l routine server (step m l routine server (frees u) x)
  unfolding step note_freed routine_end worker_free
  free-Served u x (xs, h) = elim (part_cases u x.calling) [
    | inl e ↦ rw e (xs, h)
    | inr (p, rest, e, addresses, sums) ↦
        let w = x.serving.work in
        let node = node_of w.tasks p in
        elim (Bool-cases (node == 0)) [
          | inl z ↦
              rw (e, z)
                (
                  xs,
                  lessened p (l.libc_free p w.store) rest x xs
                      (λ a. omega (arith, l.libc_free_blocks p w.store a)) addresses sums h,
                )
          | inr z ↦
              let real : node ≢ 0 = ground (arith, z) in
              let s = m.free node w.store in
              rw (e, z)
                (
                  xs,
                  lessened p (l.libc_free p s) rest x xs
                      (λ a.
                        omega (arith, l.libc_free_blocks p s a, m.free_blocks node w.store a real))
                      addresses sums h,
                )
        ]
  ]
