-- ===== src/Sockets/Ordered.antt =====
-- The connections of a server of os_tcp_server.c are taken in order and handled once, under every
-- schedule.
use multi_task_app.Prelude.{
  ℕ, ◌+◌, ◌≡◌, ◌≢◌, refl, ap, ◌∙◌, ◌==◌, Bool, Bool-cases, inl, inr, map, Option, some, List, [],
  ◌∷◌, ◌++◌, occurrences, arith,
}
use multi_task_app.Alloc.{Fresh, LibcFresh, Allocator, Libc}
use multi_task_app.App.Steps.{waiting-owned, woken-owned}
use multi_task_app.AsyncQueue.{AsyncQueue, os_async_queue_pop_wait}
use multi_task_app.AsyncQueue.System.{woken_of, wake}
use multi_task_app.AsyncQueue.Fifo.{held, wake-held, pop_wait-held}
use multi_task_app.Threadpool.Backed.{owned_by, count, in_hands, Backed, Backed-live}
use multi_task_app.Sockets.TcpServer.{Call, TcpServer, Serving}
use multi_task_app.Sockets.Service.{
  Event, accepts, waits, wakes, takes, calls, frees, Service, step, run,
}
use multi_task_app.Sockets.Queued.{real_of, call_of, due, Served}
use multi_task_app.Sockets.Accepted.{accept-Served}
use multi_task_app.Sockets.Worked.{took, take-Served, call-Served, free-Served}

module _ (m : Allocator) (l : Libc m) (routine : ℕ) (server : TcpServer) where
  open m use {Store, blocks, malloc}

  -- The queue is another, which holds the same.
  requeued :
      (k : Option AsyncQueue) (x : Service Store)
      → held k ≡ held x.serving.work.queue
      → owned_by k ≡ owned_by x.serving.work.queue
      → Served m l routine server x
      → Served m l routine server
          (record x { serving = record x.serving { work = record x.serving.work { queue = k } } })
  requeued k x eh eo (xs, h) = (
    xs,
    record {
      holds = eh ∙ h.holds;
      order = h.order;
      counts = h.counts;
      callable = h.callable;
      nonnull = h.nonnull;
      real = ap (occurrences 0) eo ∙ h.real;
      live = λ a. omega (arith, h.live a, ap (occurrences a) eo);
    },
  )

  run-Served :
      (es : List Event) (x : Service Store)
      → Fresh m
      → LibcFresh m l
      → routine ≢ 0
      → server.cb ≢ 0
      → Served m l routine server x
      → Served m l routine server (run m l routine server es x)
  unfolding run step
  run-Served [] x fresh fresh' hr hc v = v
  run-Served (accepts t conn_fd ∷ es) x fresh fresh' hr hc v =
      run-Served es (step m l routine server (accepts t conn_fd) x) fresh fresh' hr hc
        (accept-Served m l routine server t conn_fd x fresh fresh' hr hc v)
  run-Served (waits u ∷ es) x fresh fresh' hr hc v =
      let k = x.serving.work.queue in
      run-Served es (step m l routine server (waits u) x) fresh fresh' hr hc
        (requeued (os_async_queue_pop_wait k u) x (pop_wait-held u k) (waiting-owned u k) v)
  run-Served (wakes u ∷ es) x fresh fresh' hr hc v =
      let k = x.serving.work.queue in
      run-Served es (step m l routine server (wakes u) x) fresh fresh' hr hc
        (requeued (wake u k) x (wake-held u k) (woken-owned u k) v)
  run-Served (takes u ∷ es) x fresh fresh' hr hc v =
      elim (Bool-cases (occurrences u (woken_of x.serving.work.queue) == 0)) [
        | inl e ↦ rw e (run-Served es x fresh fresh' hr hc v)
        | inr e ↦ rw e (
            run-Served es (took m l routine server u x) fresh fresh' hr hc
              (take-Served m l routine server u x v))
      ]
  run-Served (calls u ∷ es) x fresh fresh' hr hc v =
      run-Served es (step m l routine server (calls u) x) fresh fresh' hr hc
        (call-Served m l routine server u x v)
  run-Served (frees u ∷ es) x fresh fresh' hr hc v =
      run-Served es (step m l routine server (frees u) x) fresh fresh' hr hc
        (free-Served m l routine server u x v)

  -- No connection has come yet.
  abbrev pub open_for_service : Serving Store → Service Store
  open_for_service x = record {
    serving = x;
    accepted = [];
    taken = [];
    called = [];
    holding = [];
    calling = [];
  }

  -- A server takes its connections in order, and hands each to the callback once, under every
  -- schedule of its task and its workers, in which a worker's pop, its call and its frees are steps
  -- of their own: from a server whose queue is empty and whose blocks are live, with a callback and a
  -- routine that are not NULL, the calls of the callback that are due for the connections that the
  -- pool took on, with the server's user data, are those of the tasks that workers took, in order,
  -- followed by those of the tasks that the queue still holds; and each of the taken ones was made
  -- as often as it was taken, but for those of the workers that have not called yet. malloc and
  -- MALLOC must not give an address where a block is live. The calls of different workers may come
  -- in another order than their connections, and what the callback does is apart.
  pub connections_taken_in_order :
      (es : List Event) (x : Serving Store)
      → Fresh m
      → LibcFresh m l
      → routine ≢ 0
      → server.cb ≢ 0
      → held x.work.queue ≡ some []
      → Backed m x.work.queue x.work.store
      → let end = run m l routine server es (open_for_service x) in
        let call = call_of end.serving.nodes end.serving.work.tasks in
        (xs : List ℕ) × (held end.serving.work.queue ≡ some xs)
        × (map (due m l routine server) end.accepted ≡ end.taken ++ map call xs)
        × ((f : Option Call → Bool)
            → count f end.taken ≡ count f end.called + count f (map call (in_hands end.holding)))
  connections_taken_in_order es x fresh fresh' hr hc e b =
      let (xs, v) = run-Served es (open_for_service x) fresh fresh' hr hc (
        [],
        record {
          holds = e;
          order = refl;
          counts = λ f. omega arith;
          callable = tt;
          nonnull = tt;
          real = real_of m x.work.queue x.work.store b;
          live = λ a. omega (arith, Backed-live m x.work.queue x.work.store b a);
        },
      ) in
      (xs, v.holds, v.order, v.counts)
