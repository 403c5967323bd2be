-- ===== src/Tests/Events.antt =====
-- Tests of Evdriver.antt and its children.
use multi_task_app.Prelude.{
  ℕ, ◌-◌, ◌≡◌, refl, occurrences, true, false, Option, none, some, [], ◌∷◌, ◌++◌,
}
use multi_task_app.Evdriver.{
  timer, os_evdriver_timer, Evdriver, EvNode, EpollResult, added, error, Kernel, Fds, failure,
  os_evdriver_create2, os_evdriver_destroy,
}
use multi_task_app.Evdriver.Loop.{Round, returned, os_evdriver_run2}
use multi_task_app.Evdriver.Unopened.{adds, dels, use_all, created_never_runs}
use multi_task_app.Evdriver.Nodes.{new_node, selfs, node_fds, fd_list, destroy_releases}
use multi_task_app.Tests.World.{allocator, no_memory}

-- The kernel refuses descriptor -1 and watches any other.
abbrev answer : Option ℕ → ℕ → EpollResult
answer none g = error
answer (some l) g = added

abbrev kernel : Kernel
kernel = record {
  epoll_add = answer;
  timerfd_create = 8;
  signalfd = some 9;
  sigprocmask = true;
  signalfd_again = true;
}

abbrev no_fds : Fds
no_fds = record { opened = []; watched = [] }

abbrev driver : Option ℕ → Evdriver
driver loop = record { addr = 5; nodes = []; owner = "evdriver"; loop = loop; running = false }

abbrev node : EvNode
node = new_node allocator 6 8 os_evdriver_timer 40 41

abbrev round : Round
round = record { ready = some node ∷ none ∷ []; clears = false }

abbrev last_round : Round
last_round = record { ready = some node ∷ []; clears = true }

created_never_runs_example :
    (d : Evdriver) × ((os_evdriver_create2 allocator "loop" no_memory).0 ≡ some d)
    × (os_evdriver_run2 0
          (some
            (use_all allocator (adds kernel (timer 10 0) 40 41 ∷ dels node ∷ []) (record {
              driver = d;
              fds = no_fds;
              store = (os_evdriver_create2 allocator "loop" no_memory).1;
            })).driver)
          (round ∷ [])
        ≡ returned failure [])
created_never_runs_example =
    created_never_runs allocator "loop" no_memory (adds kernel (timer 10 0) 40 41 ∷ dels node ∷ [])
      no_fds 0 (round ∷ [])

abbrev used : Evdriver
used = record (driver (some 3)) { nodes = node ∷ [] }

destroy_releases_example :
    let (fds', s') =
      os_evdriver_destroy allocator
        (some used)
        (record no_fds { opened = 8 ∷ 3 ∷ 1 ∷ [] })
        (record no_memory { user = 5 ∷ 6 ∷ 7 ∷ [] }) in
    (occurrences 6 s'.user
      ≡ occurrences 6 (5 ∷ 6 ∷ 7 ∷ []) - occurrences 6 (used.addr ∷ selfs used.nodes))
    × (occurrences 6 fds'.opened
        ≡ occurrences 6 (8 ∷ 3 ∷ 1 ∷ []) - occurrences 6 (node_fds used.nodes ++ fd_list used.loop))
destroy_releases_example =
    destroy_releases allocator used (record no_fds { opened = 8 ∷ 3 ∷ 1 ∷ [] })
      (record no_memory { user = 5 ∷ 6 ∷ 7 ∷ [] }) 6 refl
