-- ===== src/Sockets/Endless.antt =====
-- When os_tcp_server_destroy of os_tcp_server.c returns.
use multi_task_app.Prelude.{
  ℕ, ◌-◌, ◌≤◌, ◌≡◌, ◌≢◌, ◌⊎◌, refl, sym, ap, ◌∙◌, ◌==◌, bit, Bool, Bool-cases, Option-cases, inl,
  inr, some, List, occurrences, erase, arith,
}
use multi_task_app.Alloc.{Allocator, Libc}
use multi_task_app.AsyncQueue.System.{woken_of}
use multi_task_app.Threadpool.{PoolTask, worker_pop, worker_call}
use multi_task_app.Threadpool.Backed.{part_cases}
use multi_task_app.Sockets.{close}
use multi_task_app.Sockets.TcpServer.{
  TcpServer, TcpServerNode, Serving, Started, serves, ends, joins, faults, task_routine_tcp_server,
  tcp_server_node_size, os_tcp_server_destroy, accept_round, routine_end,
}
use multi_task_app.Sockets.Service.{
  Event, accepts, waits, wakes, takes, calls, frees, Service, takes_on, step,
}
use multi_task_app.Sockets.Shutdown.{
  in_loop, posted, waiting, returned, Lifetime, destroyed, Step, works, destroys, Reach, here, next,
  begin,
}

stopped : {A : Type 0} → posted ≡ in_loop → A
stopped e = cc

over : {A : Type 0} → returned ≡ waiting → A
over e = cc

module _ (m : Allocator) (l : Libc m) (routine : ℕ) (server : TcpServer) where
  open m use {Store, malloc, free, blocks}

  -- The descriptors of `x` are open in `y`.
  abbrev Keeps : Service Store → Service Store → Type 0
  Keeps x y = (a : ℕ) → occurrences a x.serving.opened ≤ occurrences a y.serving.opened

  routine_end-opened : (p : ℕ) (x : Serving Store) → (routine_end m l p x).opened ≡ x.opened
  unfolding routine_end
  routine_end-opened p x = elim (Bool-cases (p == 0)) [ inl e ↦ rw e refl | inr e ↦ rw e refl ]

  accept-opened :
      (t conn_fd a : ℕ) (x : Serving Store)
      → occurrences a x.opened
        ≤ occurrences a (accept_round m l t routine server (some conn_fd) x).opened
  unfolding accept_round
  accept-opened t conn_fd a x = elim (Bool-cases (conn_fd == 0)) [
    | inl e ↦ rw e (omega arith)
    | inr e ↦ elim (Bool-cases ((malloc tcp_server_node_size x.work.store).0 == 0)) [
      | inl g ↦ rw (e, g) (omega arith)
      | inr g ↦ rw (e, g) (omega arith)
    ]
  ]

  step-Keeps : (e : Event) (x : Service Store) → Keeps x (step m l routine server e x)
  unfolding step worker_pop
  step-Keeps (accepts t conn_fd) x a =
      let kept = accept-opened t conn_fd a x.serving in
      elim (Bool-cases (conn_fd == 0)) [
        | inl e ↦ rw e kept
        | inr e ↦ elim (Bool-cases (takes_on m l routine server t x.serving)) [
          | inl f ↦ rw (e, f) kept
          | inr f ↦ rw (e, f) kept
        ]
      ]
  step-Keeps (waits u) x a = omega arith
  step-Keeps (wakes u) x a = omega arith
  step-Keeps (takes u) x a =
      let (p, w) = worker_pop m l u x.serving.work in
      elim (Bool-cases (occurrences u (woken_of x.serving.work.queue) == 0)) [
        | inl e ↦ rw e (omega arith)
        | inr e ↦ elim (Option-cases (worker_call m l p w)) [
          | inl f ↦ rw (e, f) (omega arith)
          | inr (task, f) ↦ rw (e, f) (omega arith)
        ]
      ]
  step-Keeps (calls u) x a = elim (part_cases u x.holding) [
    | inl e ↦ rw e (omega arith)
    | inr (p, rest, e, addresses, counts) ↦ rw e (omega arith)
  ]
  step-Keeps (frees u) x a = elim (part_cases u x.calling) [
    | inl e ↦ rw e (omega arith)
    | inr (p, rest, e, addresses, counts) ↦
        let kept = routine_end-opened (x.serving.work.tasks p).argument x.serving in
        rw e (omega (arith, ap (occurrences a) kept))
  ]

  module _ (nodes : ℕ → TcpServerNode) (tasks : ℕ → PoolTask) (opened : List ℕ) (s : Store) where
    -- The server when its destruction is over, from a task that left the store `s'`.
    abbrev gone : Store → Lifetime Store
    gone s' =
        let x = begin m nodes tasks opened s (ends s') in
        record x { service = destroyed m l routine server x.service; sem = 0; destroy = returned }

    -- The destruction waits for a post that is not there.
    abbrev IsBlocked : Lifetime Store → Type 0
    IsBlocked y =
        (y.sem ≡ 0)
        × (y.destroy ≡ waiting)
        × ((a : ℕ) → occurrences a opened ≤ occurrences a y.service.serving.opened)

    -- The destruction is blocked, or the task came to its end.
    abbrev Stage : Started Store → Lifetime Store → Type 0
    Stage st y =
        IsBlocked y
        ⊎ ((s' : Store) × (st ≡ ends s')
            × ((y ≡ begin m nodes tasks opened s (ends s')) ⊎ (y ≡ gone s')))

    begin-Stage : (st : Started Store) → Stage st (begin m nodes tasks opened s st)
    unfolding begin
    begin-Stage (serves pool s') = inl (refl, refl, λ a. omega arith)
    begin-Stage (ends s') = inr (s', refl, inl refl)
    begin-Stage joins = inl (refl, refl, λ a. omega arith)
    begin-Stage faults = inl (refl, refl, λ a. omega arith)

    works-IsBlocked :
        (e : Event) (x y : Lifetime Store)
        → y ≡ record x { service = step m l routine server e x.service }
        → IsBlocked x
        → IsBlocked y
    works-IsBlocked e x y f (empty, stays, keeps) =
        rw f (empty, stays, λ a. omega (arith, keeps a, step-Keeps e x.service a))

    Step-Stage :
        (st : Started Store) (x y : Lifetime Store)
        → Step m l routine server x y
        → Stage st x
        → Stage st y
    unfolding begin
    Step-Stage st x y (works e at f) (inl h) = inl (works-IsBlocked e x y f h)
    Step-Stage st x y (works e at f) (inr (s', h, inl g)) = stopped (sym (ap (λ z. z.task) g) ∙ at)
    Step-Stage st x y (works e at f) (inr (s', h, inr g)) = stopped (sym (ap (λ z. z.task) g) ∙ at)
    Step-Stage st x y (destroys k at some_posts f) (inl (empty, stays, keeps)) =
        absurd (omega (arith, empty, some_posts))
    Step-Stage st x y (destroys k at some_posts f) (inr (s', h, inl g)) =
        let last : k ≡ 0 = omega (arith, sym (ap (λ z. z.sem) g) ∙ some_posts) in
        inr (s', h, inr (rw f (rw (g, last) refl)))
    Step-Stage st x y (destroys k at some_posts f) (inr (s', h, inr g)) =
        over (sym (ap (λ z. z.destroy) g) ∙ at)

    Reach-Stage :
        (st : Started Store) (y : Lifetime Store)
        → Reach m l routine server (begin m nodes tasks opened s st) y
        → Stage st y
    Reach-Stage st _ here = begin-Stage st
    Reach-Stage st z (next {y} r step) = Step-Stage st y z step (Reach-Stage st y r)

    -- How the destruction of a server goes, under every schedule of its task, its workers and its
    -- clients: either os_tcp_server_destroy still waits for `sem`, and no descriptor is closed; or
    -- it has returned, and then the task came to its end because no pool could be made, a descriptor
    -- of the listening socket is closed and the server's block is freed. So once the task is in its
    -- loop, os_tcp_server_destroy does not return. What the callback does to the descriptors is
    -- apart. The server is not NULL.
    pub server_destroyed :
        (starts : ℕ → Bool) (junk : ℕ) (y : Lifetime Store)
        → server.self ≢ 0
        → let st = task_routine_tcp_server m l starts junk server s in
          Reach m l routine server (begin m nodes tasks opened s st) y
          → ((y.destroy ≡ waiting)
              × ((a : ℕ) → occurrences a opened ≤ occurrences a y.service.serving.opened))
            ⊎ ((y.destroy ≡ returned)
                × (s' : Store) × (st ≡ ends s')
                × (y.service.serving.opened ≡ erase server.listen_fd opened)
                × ((a : ℕ)
                    → blocks y.service.serving.work.store a ≡ blocks s' a - bit (server.self == a)))
    unfolding begin destroyed os_tcp_server_destroy close
    server_destroyed starts junk y real r =
        let st = task_routine_tcp_server m l starts junk server s in
        elim (Reach-Stage st y r) [
          | inl (empty, stays, keeps) ↦ inl (stays, keeps)
          | inr (s', h, inl g) ↦ rw g (inl (refl, λ a. omega arith))
          | inr (s', h, inr g) ↦
              rw g (inr (refl, s', h, refl, λ a. m.free_blocks server.self s' a real))
        ]
