-- ===== src/Evdriver/Unopened.antt =====
-- A driver of os_evdriver.c as it is created: os_evdriver_create2 sets `loop` to -1, and no
-- function calls epoll_create.
use multi_task_app.Prelude.{
  ℕ, ◌≡◌, ◌≢◌, refl, ◌∙◌, ◌==◌, false, Bool-cases, inl, inr, Option, none, some, List, [], ◌∷◌,
  String, arith,
}
use multi_task_app.Alloc.{Allocator, malloc_check}
use multi_task_app.Evdriver.{
  Event, io, timer, signal, other, Evdriver, EvNode, error, Kernel, Fds, Status, success, failure,
  evdriver_size, os_evdriver_create2, os_evdriver_add, os_evdriver_del, add_event, finish_add,
  allowed, EventType, os_evdriver_io, os_evdriver_timer, os_evdriver_signal,
}
use multi_task_app.Evdriver.Loop.{Round, returned, os_evdriver_run2}

-- A use of the driver: an event is added, or a node deleted.
pub data Use : Type 0 where
  adds : Kernel → Event → ℕ → ℕ → Use
  dels : EvNode → Use

module _ (m : Allocator) where
  open m use {Store, blocks, malloc, free}

  pub record Sys : Type 0 where
    pub driver : Evdriver
    pub fds : Fds
    pub store : Store

  unfoldable pub use_driver : Use → Sys → Sys
  use_driver (adds k ev cb user_data) s =
      let (_, d, fds, store) = os_evdriver_add m k ev cb user_data s.driver s.fds s.store in
      record { driver = d; fds = fds; store = store }
  use_driver (dels n) s =
      let (d, _, fds) = os_evdriver_del n s.driver s.fds in record s { driver = d; fds = fds }

  unfoldable pub use_all : List Use → Sys → Sys
  use_all [] s = s
  use_all (u ∷ us) s = use_all us (use_driver u s)

  freed_again :
      (s : Store) (a : ℕ) → let (p, t) = malloc evdriver_size s in blocks (free p t) a ≡ blocks s a
  freed_again s a =
      let (p, t) = malloc evdriver_size s in
      omega (
        arith,
        m.malloc_blocks evdriver_size s a,
        m.free_blocks p t a (m.malloc_nonnull evdriver_size s),
      )

  finish_add-loop :
      (p : ℕ) (type : EventType) (cb u : ℕ) (r : Status × Option ℕ × Fds) (d : Evdriver) (s : Store)
      → (finish_add m p type cb u r d s).1.loop ≡ d.loop
  unfolding finish_add
  finish_add-loop p type cb u (failure, fd, fds) d s = refl
  finish_add-loop p type cb u (success, fd, fds) d s = refl

  add_event-loop :
      (k : Kernel) (ev : Event) (p cb u : ℕ) (d : Evdriver) (fds : Fds) (s : Store)
      → (add_event m k ev p cb u d fds s).1.loop ≡ d.loop
  unfolding add_event
  add_event-loop k (io fd) p cb u d fds s = finish_add-loop p os_evdriver_io cb u _ d s
  add_event-loop k (timer w i) p cb u d fds s = finish_add-loop p os_evdriver_timer cb u _ d s
  add_event-loop k (signal n) p cb u d fds s = finish_add-loop p os_evdriver_signal cb u _ d s
  add_event-loop k other p cb u d fds s = refl

  add-loop :
      (k : Kernel) (ev : Event) (cb u : ℕ) (d : Evdriver) (fds : Fds) (s : Store)
      → (os_evdriver_add m k ev cb u d fds s).1.loop ≡ d.loop
  unfolding os_evdriver_add
  add-loop k ev cb u d fds s = elim (Bool-cases (cb == 0)) [
    | inl e ↦ rw e refl
    | inr e ↦ elim (Bool-cases (allowed ev)) [
      | inl a ↦
          rw (e, a, malloc_check m evdriver_size s)
            (add_event-loop k ev (malloc evdriver_size s).0 cb u d fds (malloc evdriver_size s).1)
      | inr a ↦ rw (e, a) refl
    ]
  ]

  use_driver-loop : (u : Use) (s : Sys) → (use_driver u s).driver.loop ≡ s.driver.loop
  unfolding use_driver os_evdriver_del
  use_driver-loop (adds k ev cb user_data) s = add-loop k ev cb user_data s.driver s.fds s.store
  use_driver-loop (dels n) s = ground arith

  use_all-loop : (us : List Use) (s : Sys) → (use_all us s).driver.loop ≡ s.driver.loop
  unfolding use_all
  use_all-loop [] s = refl
  use_all-loop (u ∷ us) s = use_all-loop us (use_driver u s) ∙ use_driver-loop u s

  -- A driver that os_evdriver_create2 made never runs: it has no epoll instance, no sequence of
  -- os_evdriver_add and os_evdriver_del gives it one, and after any such sequence
  -- os_evdriver_run2 returns -1 with any flags, before a callback is called.
  pub created_never_runs :
      (name : String) (s : Store) (us : List Use) (fds : Fds) (flags : ℕ) (rs : List Round)
      → (d : Evdriver) × ((os_evdriver_create2 m name s).0 ≡ some d)
        × (os_evdriver_run2 flags
              (some
                (use_all us (record {
                  driver = d;
                  fds = fds;
                  store = (os_evdriver_create2 m name s).1;
                })).driver)
              rs
            ≡ returned failure [])
  unfolding os_evdriver_create2 os_evdriver_run2
  created_never_runs name s us fds flags rs =
      let (p, t) = malloc evdriver_size s in
      let d : Evdriver = record {
        addr = p;
        nodes = [];
        owner = name;
        loop = none;
        running = false;
      } in
      let still : (use_all us (record { driver = d; fds = fds; store = t })).driver.loop ≡ none =
        use_all-loop us (record { driver = d; fds = fds; store = t }) in
      rw (malloc_check m evdriver_size s) (d, refl, rw still refl)

  -- On a driver without an epoll instance, and where the kernel refuses epoll_ctl on descriptor
  -- -1, os_evdriver_add of a descriptor or a timer returns NULL, the driver is as it was, and at
  -- each address there are as many live blocks as before. For a descriptor the process's
  -- descriptors are as they were too; for a timer the one that timerfd_create opened stays open.
  pub add_unopened :
      (k : Kernel) (fd w i cb u : ℕ) (d : Evdriver) (fds : Fds) (s : Store)
      → ((g : ℕ) → k.epoll_add none g ≡ error)
      → d.loop ≡ none
      → cb ≢ 0
      → k.timerfd_create ≢ 0
      → let (n, d', fds', s') = os_evdriver_add m k (io fd) cb u d fds s in
        let (n'', d'', fds'', s'') = os_evdriver_add m k (timer w i) cb u d fds s in
        ((n ≡ none) × (d' ≡ d) × (fds' ≡ fds) × ((a : ℕ) → blocks s' a ≡ blocks s a))
        × ((n'' ≡ none)
            × (d'' ≡ d)
            × (fds'' ≡ record fds { opened = k.timerfd_create ∷ fds.opened })
            × ((a : ℕ) → blocks s'' a ≡ blocks s a))
  unfolding os_evdriver_add
  add_unopened k fd w i cb u d fds s bad closed hcb ht =
      let given : (cb == 0) ≡ false = ground (arith, hcb) in
      let opened : (k.timerfd_create == 0) ≡ false = ground (arith, ht) in
      let back = λ (a : ℕ). freed_again s a in
      rw (given, malloc_check m evdriver_size s, closed, bad fd, bad k.timerfd_create, opened)
        ((refl, refl, refl, back), (refl, refl, refl, back))
