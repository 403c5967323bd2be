-- ===== src/Evdriver.antt =====
-- platform/os/linux/base/os_evdriver.c: an event loop over epoll, with timer, signal and plain
-- descriptors.
pub mod Loop
pub mod Unopened
pub mod Nodes
pub mod Time
use multi_task_app.Prelude.{
  ℕ, ◌+◌, ◌*◌, ◌/◌, ◌%◌, ◌^◌, ◌==◌, ltb, if◌then◌else◌, Bool, true, false, ◌&&◌, Option, none, some,
  List, [], ◌∷◌, ◌++◌, String, map, erase,
}
use multi_task_app.Alloc.{Allocator}

-- os_event_t: `other` is an event type of OS_EVDRIVER_BUTT or more.
pub data Event : Type 0 where
  io : ℕ → Event
  timer : ℕ → ℕ → Event
  signal : ℕ → Event
  other : Event

pub data EventType : Type 0 where
  os_evdriver_io os_evdriver_timer os_evdriver_signal : EventType

-- struct os_evdriver_node_s with its own address; a descriptor is `none` for -1.
pub record EvNode : Type 0 where
  pub self : ℕ
  pub event_fd : Option ℕ
  pub event_type : EventType
  pub cb : ℕ
  pub user_data : ℕ

-- struct os_evdriver_s: `loop` is the descriptor of the epoll instance.
pub record Evdriver : Type 0 where
  pub addr : ℕ
  pub nodes : List EvNode
  pub owner : String
  pub loop : Option ℕ
  pub running : Bool

pub data EpollResult : Type 0 where
  added eperm error : EpollResult

-- What the kernel answers: epoll_ctl to an ADD, timerfd_create (0 and below it are refused by the
-- caller, and -1 reads 0 here), signalfd, sigprocmask, and signalfd on its own descriptor.
pub record Kernel : Type 0 where
  pub epoll_add : Option ℕ → ℕ → EpollResult
  pub timerfd_create : ℕ
  pub signalfd : Option ℕ
  pub sigprocmask : Bool
  pub signalfd_again : Bool

-- The process's descriptors: those open, and the pairs that an epoll instance watches.
pub record Fds : Type 0 where
  pub opened : List ℕ
  pub watched : List (Option ℕ × ℕ)

pub data Status : Type 0 where
  success failure : Status

-- struct timespec, from a number of milliseconds.
pub record Timespec : Type 0 where
  pub tv_sec : ℕ
  pub tv_nsec : ℕ

-- For the values of `msec` that are not negative as an int.
unfoldable pub msec2tspec : ℕ → Timespec
msec2tspec msec =
    if msec == 0
    then record { tv_sec = 0; tv_nsec = 0 }
    else record { tv_sec = msec / 1000; tv_nsec = msec % 1000 * 1000000 }

epoll_result : EpollResult → Option ℕ → ℕ → Fds → Status × Fds
epoll_result added loop fd fds = (success, record fds { watched = (loop, fd) ∷ fds.watched })
epoll_result eperm loop fd fds = (success, fds)
epoll_result error loop fd fds = (failure, fds)

unfoldable pub evdriver_epoll_add : Kernel → Option ℕ → ℕ → Fds → Status × Fds
unfolding epoll_result
evdriver_epoll_add k loop fd fds = epoll_result (k.epoll_add loop fd) loop fd fds

-- The adders return their status, the node's descriptor and the descriptors after them.
unfoldable pub evdriver_io_add : Kernel → Option ℕ → ℕ → Fds → Status × Option ℕ × Fds
unfolding evdriver_epoll_add
evdriver_io_add k loop fd fds =
    let (status, fds') = evdriver_epoll_add k loop fd fds in (status, some fd, fds')

-- No call of __evdriver_epoll_add is made for a signal. A descriptor that was opened stays open
-- where a later call fails.
signal_fd : Kernel → Option ℕ → Fds → Status × Option ℕ × Fds
signal_fd k none fds = (failure, none, fds)
signal_fd k (some fd) fds =
    let fds' = record fds { opened = fd ∷ fds.opened } in
    if k.sigprocmask && k.signalfd_again then (success, some fd, fds') else (failure, none, fds')

unfoldable pub evdriver_signal_add : Kernel → Fds → Status × Option ℕ × Fds
unfolding signal_fd
evdriver_signal_add k fds = signal_fd k k.signalfd fds

unfoldable pub evdriver_timer_add : Kernel → Option ℕ → Fds → Status × Option ℕ × Fds
unfolding evdriver_epoll_add
evdriver_timer_add k loop fds =
    let fd = k.timerfd_create in
    let (status, fds') = evdriver_epoll_add k loop fd (record fds { opened = fd ∷ fds.opened }) in
    if fd == 0 then (failure, none, fds) else (status, some fd, fds')

-- sizeof(os_evdriver_t) on a 64-bit target; os_evdriver_add allocates it for a node as well.
abbrev pub evdriver_size : ℕ
evdriver_size = 72

unlisted : ℕ → List EvNode → List EvNode
unlisted p [] = []
unlisted p (n ∷ ns) = if p == n.self then ns else n ∷ unlisted p ns

unfoldable pub close_fd : Option ℕ → Fds → Fds
close_fd none fds = fds
close_fd (some fd) fds = record fds { opened = erase fd fds.opened }

-- epoll_ctl to a DEL, and close, which takes the descriptor out of every epoll instance too.
unwatched : ℕ → List (Option ℕ × ℕ) → List (Option ℕ × ℕ)
unwatched fd [] = []
unwatched fd ((l, g) ∷ ws) = if fd == g then unwatched fd ws else (l, g) ∷ unwatched fd ws

unfoldable pub drop_fd : Option ℕ → Fds → Fds
unfolding close_fd unwatched
drop_fd none fds = fds
drop_fd (some fd) fds = close_fd (some fd) (record fds { watched = unwatched fd fds.watched })

-- os_evdriver_del: the driver, the node and the descriptors after it. The node is not freed.
listed : ℕ → List EvNode → Bool
listed p [] = false
listed p (n ∷ ns) = if p == n.self then true else listed p ns

unfoldable pub os_evdriver_del : EvNode → Evdriver → Fds → Evdriver × EvNode × Fds
unfolding unlisted listed
os_evdriver_del n d fds =
    if listed n.self d.nodes
    then (
      record d { nodes = unlisted n.self d.nodes },
      record n { event_fd = none },
      drop_fd n.event_fd fds,
    )
    else (d, n, fds)

-- The test of the event type against OS_EVDRIVER_BUTT.
allowed : Event → Bool
allowed (io fd) = true
allowed (timer when interval) = true
allowed (signal signo) = true
allowed other = false

module _ (m : Allocator) where
  open m use {Store, malloc, free}

  unfoldable pub os_evdriver_create2 : String → Store → Option Evdriver × Store
  os_evdriver_create2 name s =
      let (p, t) = malloc evdriver_size s in
      if p == 0
      then (none, t)
      else (some (record { addr = p; nodes = []; owner = name; loop = none; running = false }), t)

  unfoldable pub os_evdriver_create : Store → Option Evdriver × Store
  unfolding os_evdriver_create2
  os_evdriver_create s = os_evdriver_create2 "evdriver" s

  -- The loop of os_evdriver_destroy over the nodes.
  unfoldable pub destroy_nodes : List EvNode → Fds → Store → Fds × Store
  destroy_nodes [] fds s = (fds, s)
  destroy_nodes (n ∷ ns) fds s = destroy_nodes ns (drop_fd n.event_fd fds) (free n.self s)

  unfoldable pub os_evdriver_destroy : Option Evdriver → Fds → Store → Fds × Store
  unfolding destroy_nodes
  os_evdriver_destroy none fds s = (fds, s)
  os_evdriver_destroy (some d) fds s =
      let (fds', s') = destroy_nodes d.nodes fds s in (close_fd d.loop fds', free d.addr s')

  -- The event is added, or the node is freed.
  finish_add :
      ℕ
      → EventType
      → ℕ
      → ℕ
      → Status × Option ℕ × Fds
      → Evdriver
      → Store
      → Option EvNode × Evdriver × Fds × Store
  finish_add p type cb user_data (failure, fd, fds) d s = (none, d, fds, free p s)
  finish_add p type cb user_data (success, fd, fds) d s =
      let node : EvNode = record {
        self = p;
        event_fd = fd;
        event_type = type;
        cb = cb;
        user_data = user_data;
      } in
      (some node, record d { nodes = d.nodes ++ node ∷ [] }, fds, s)

  add_event :
      Kernel → Event → ℕ → ℕ → ℕ → Evdriver → Fds → Store → Option EvNode × Evdriver × Fds × Store
  unfolding finish_add evdriver_io_add evdriver_timer_add evdriver_signal_add
  add_event k (io fd) p cb u d fds s =
      finish_add p os_evdriver_io cb u (evdriver_io_add k d.loop fd fds) d s
  add_event k (timer when interval) p cb u d fds s =
      finish_add p os_evdriver_timer cb u (evdriver_timer_add k d.loop fds) d s
  add_event k (signal signo) p cb u d fds s =
      finish_add p os_evdriver_signal cb u (evdriver_signal_add k fds) d s
  add_event k other p cb u d fds s = (none, d, fds, free p s)

  -- os_evdriver_add on a driver and an event that are not NULL; `cb` is 0 for NULL.
  unfoldable pub os_evdriver_add :
      Kernel → Event → ℕ → ℕ → Evdriver → Fds → Store → Option EvNode × Evdriver × Fds × Store
  unfolding add_event allowed
  os_evdriver_add k ev cb user_data d fds s =
      let (p, t) = malloc evdriver_size s in
      if cb == 0
      then (none, d, fds, s)
      else if allowed ev
      then (if p == 0 then (none, d, fds, t) else add_event k ev p cb user_data d fds t)
      else (none, d, fds, s)
