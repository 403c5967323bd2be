-- ===== src/Evdriver/Nodes.antt =====
-- The events of a driver of os_evdriver.c: adding, deleting, and the end of the driver.
use multi_task_app.Prelude.{
  ℕ, ◌-◌, ◌≡◌, ◌≢◌, refl, ◌==◌, occurrences, true, false, Option, none, some, List, [], ◌∷◌, ◌++◌,
  map, occurrences-erase, occurrences-append, arith,
}
use multi_task_app.Alloc.{Allocator, malloc_check}
use multi_task_app.Evdriver.{
  timer, signal, EventType, os_evdriver_timer, os_evdriver_signal, Evdriver, EvNode, added, Kernel,
  Fds, evdriver_size, os_evdriver_add, os_evdriver_del, os_evdriver_destroy, destroy_nodes,
  unlisted, listed, unwatched, drop_fd, close_fd,
}

-- No node of the list is at the address.
abbrev pub NoneAt : ℕ → List EvNode → Type 0
NoneAt p [] = Unit {0}
NoneAt p (n ∷ ns) = (p ≢ n.self) × NoneAt p ns

-- No epoll instance watches the descriptor.
abbrev pub Unwatched : ℕ → List (Option ℕ × ℕ) → Type 0
Unwatched fd [] = Unit {0}
Unwatched fd ((l, g) ∷ ws) = (fd ≢ g) × Unwatched fd ws

listed_last : (n : EvNode) (ns : List EvNode) → listed n.self (ns ++ n ∷ []) ≡ true
unfolding listed
listed_last n [] = ground arith
listed_last n (k ∷ ns) = ground (arith, listed_last n ns)

unlisted_last :
    (n : EvNode) (ns : List EvNode) → NoneAt n.self ns → unlisted n.self (ns ++ n ∷ []) ≡ ns
unfolding unlisted
unlisted_last n [] h = ground arith
unlisted_last n (k ∷ ns) h = ground (arith, h.0, unlisted_last n ns h.1)

unwatched_lem : (fd : ℕ) (ws : List (Option ℕ × ℕ)) → Unwatched fd ws → unwatched fd ws ≡ ws
unfolding unwatched
unwatched_lem fd [] h = refl
unwatched_lem fd ((l, g) ∷ ws) h = ground (arith, h.0, unwatched_lem fd ws h.1)

drop_new :
    (loop : Option ℕ) (fd : ℕ) (fds : Fds)
    → Unwatched fd fds.watched
    → drop_fd (some fd) (record { opened = fd ∷ fds.opened; watched = (loop, fd) ∷ fds.watched })
      ≡ fds
unfolding drop_fd
drop_new loop fd fds h = ground (arith, unwatched_lem fd fds.watched h)

abbrev pub selfs : List EvNode → List ℕ
selfs = map (λ n. n.self)

abbrev pub fd_list : Option ℕ → List ℕ
fd_list none = []
fd_list (some fd) = fd ∷ []

-- The descriptors of the nodes.
abbrev pub node_fds : List EvNode → List ℕ
node_fds [] = []
node_fds (n ∷ ns) = fd_list n.event_fd ++ node_fds ns

drop_fd-opened :
    (fd : Option ℕ) (fds : Fds) (a : ℕ)
    → occurrences a (drop_fd fd fds).opened ≡ occurrences a fds.opened - occurrences a (fd_list fd)
unfolding drop_fd
drop_fd-opened none fds a = omega arith
drop_fd-opened (some fd) fds a = omega (arith, occurrences-erase a fd fds.opened)

close_fd-opened :
    (fd : Option ℕ) (fds : Fds) (a : ℕ)
    → occurrences a (close_fd fd fds).opened ≡ occurrences a fds.opened - occurrences a (fd_list fd)
unfolding close_fd
close_fd-opened none fds a = omega arith
close_fd-opened (some fd) fds a = omega (arith, occurrences-erase a fd fds.opened)

module _ (m : Allocator) where
  open m use {Store, blocks, malloc, free}

  -- The node that os_evdriver_add makes at `p`.
  abbrev pub new_node : ℕ → ℕ → EventType → ℕ → ℕ → EvNode
  new_node p fd type cb user_data = record {
    self = p;
    event_fd = some fd;
    event_type = type;
    cb = cb;
    user_data = user_data;
  }

  -- Where the kernel grants all that is asked, os_evdriver_add of a timer and of a signal both
  -- return a node that stands at the end of the driver's list, with a new descriptor open. The
  -- timer's descriptor is added to what the driver's epoll instance watches; for the signal nothing
  -- is added.
  pub add_watches :
      (k : Kernel) (w i signo sfd cb u : ℕ) (d : Evdriver) (fds : Fds) (s : Store)
      → cb ≢ 0
      → k.timerfd_create ≢ 0
      → k.epoll_add d.loop k.timerfd_create ≡ added
      → k.signalfd ≡ some sfd
      → k.sigprocmask ≡ true
      → k.signalfd_again ≡ true
      → let (p, t) = malloc evdriver_size s in
        let timer_node = new_node p k.timerfd_create os_evdriver_timer cb u in
        let signal_node = new_node p sfd os_evdriver_signal cb u in
        (os_evdriver_add m k (timer w i) cb u d fds s ≡ (
          some timer_node,
          record d { nodes = d.nodes ++ timer_node ∷ [] },
          record {
            opened = k.timerfd_create ∷ fds.opened;
            watched = (d.loop, k.timerfd_create) ∷ fds.watched;
          },
          t,
        ))
        × (os_evdriver_add m k (signal signo) cb u d fds s ≡ (
          some signal_node,
          record d { nodes = d.nodes ++ signal_node ∷ [] },
          record fds { opened = sfd ∷ fds.opened },
          t,
        ))
  unfolding os_evdriver_add
  add_watches k w i signo sfd cb u d fds s hcb ht ha hs hp hg =
      let given : (cb == 0) ≡ false = ground (arith, hcb) in
      let opened : (k.timerfd_create == 0) ≡ false = ground (arith, ht) in
      rw (given, malloc_check m evdriver_size s, opened, ha, hs, hp, hg) (refl, refl)

  -- Adding a timer and deleting its node gives the driver and the descriptors back as they were,
  -- if the allocator and the kernel gave an address and a descriptor that were not in use; the
  -- deleted node has no descriptor.
  pub del-add :
      (k : Kernel) (w i cb u : ℕ) (d : Evdriver) (fds : Fds) (s : Store)
      → cb ≢ 0
      → k.timerfd_create ≢ 0
      → k.epoll_add d.loop k.timerfd_create ≡ added
      → NoneAt (malloc evdriver_size s).0 d.nodes
      → Unwatched k.timerfd_create fds.watched
      → (n : EvNode) × ((os_evdriver_add m k (timer w i) cb u d fds s).0 ≡ some n)
        × (os_evdriver_del n
              (os_evdriver_add m k (timer w i) cb u d fds s).1
              (os_evdriver_add m k (timer w i) cb u d fds s).2
            ≡ (d, record n { event_fd = none }, fds))
  unfolding os_evdriver_add os_evdriver_del
  del-add k w i cb u d fds s hcb ht ha fresh free_fd =
      let given : (cb == 0) ≡ false = ground (arith, hcb) in
      let opened : (k.timerfd_create == 0) ≡ false = ground (arith, ht) in
      let n = new_node (malloc evdriver_size s).0 k.timerfd_create os_evdriver_timer cb u in
      rw (given, malloc_check m evdriver_size s, opened, ha)
        (
          n,
          refl,
          rw
              (
                listed_last n d.nodes,
                unlisted_last n d.nodes fresh,
                drop_new d.loop k.timerfd_create fds free_fd,
              )
              refl,
        )

  destroy_nodes_lem :
      (ns : List EvNode) (fds : Fds) (s : Store) (a : ℕ)
      → occurrences 0 (selfs ns) ≡ 0
      → let (fds', s') = destroy_nodes m ns fds s in
        (blocks s' a ≡ blocks s a - occurrences a (selfs ns))
        × (occurrences a fds'.opened ≡ occurrences a fds.opened - occurrences a (node_fds ns))
  unfolding destroy_nodes
  destroy_nodes_lem [] fds s a h = (omega arith, omega arith)
  destroy_nodes_lem (n ∷ ns) fds s a h =
      let nonnull : n.self ≢ 0 = λ z. ground (arith, h, z) in
      let (b, o) =
        destroy_nodes_lem ns (drop_fd n.event_fd fds) (free n.self s) a (omega (arith, h)) in
      (
        omega (arith, b, m.free_blocks n.self s a nonnull),
        omega (
          arith,
          o,
          drop_fd-opened n.event_fd fds a,
          occurrences-append a (fd_list n.event_fd) (node_fds ns),
        ),
      )

  -- os_evdriver_destroy frees the driver and each of its nodes once, and closes the descriptor of
  -- each node and the epoll instance's once, and frees and closes nothing else.
  pub destroy_releases :
      (d : Evdriver) (fds : Fds) (s : Store) (a : ℕ)
      → occurrences 0 (d.addr ∷ selfs d.nodes) ≡ 0
      → let (fds', s') = os_evdriver_destroy m (some d) fds s in
        (blocks s' a ≡ blocks s a - occurrences a (d.addr ∷ selfs d.nodes))
        × (occurrences a fds'.opened
            ≡ occurrences a fds.opened - occurrences a (node_fds d.nodes ++ fd_list d.loop))
  unfolding os_evdriver_destroy
  destroy_releases d fds s a h =
      let (fds', s') = destroy_nodes m d.nodes fds s in
      let nonnull : d.addr ≢ 0 = λ z. ground (arith, h, z) in
      let (b, o) = destroy_nodes_lem d.nodes fds s a (omega (arith, h)) in
      (
        omega (arith, b, m.free_blocks d.addr s' a nonnull),
        omega (
          arith,
          o,
          close_fd-opened d.loop fds' a,
          occurrences-append a (node_fds d.nodes) (fd_list d.loop),
        ),
      )
