-- ===== src/Tests/Sockets.antt =====
-- The files on sockets, on concrete answers of the kernel.
use multi_task_app.Prelude.{
  ℕ, ◌+◌, ◌==◌, ◌++◌, bit, occurrences, ◌≡◌, refl, true, false, some, none, [], ◌∷◌, arith,
}
use multi_task_app.Sockets.{Process, SockaddrIn, inaddr_broadcast, parsed}
use multi_task_app.Sockets.Datagrams.{
  sends, receives, addresses, broadcast_run, multicast_run, datagrams_follow_senders,
}
use multi_task_app.Sockets.Broadcast.{Broadcast}
use multi_task_app.Sockets.Multicast.{Multicast}
use multi_task_app.Mm.{Sys}
use multi_task_app.Sockets.TcpServer.{tcp_server_size, os_tcp_server_create}
use multi_task_app.Sockets.TcpServer.{Answers as ServerAnswers}
use multi_task_app.Sockets.Opened.{os_tcp_server_create_leaks}
use multi_task_app.Msg.{Msg, Net}
use multi_task_app.Task.Life.{task_size}
use multi_task_app.Mm.{take_user}
use multi_task_app.Tests.World.{libc, c_library, allocator, five}

abbrev nothing : Msg
nothing = record { src = none; dst = ""; priority = 0; bytes = [] }

abbrev net : Net Sys
net = record {
  tasks = [];
  queues = λ p. none;
  msgs = λ p. nothing;
  buffers = λ p. [];
  store = five;
}

abbrev no_thread : ServerAnswers
no_thread = record { socket = some 3; bind = true; listen = true; pthread_create = false }

abbrev with_server : Sys
with_server = (allocator.malloc tcp_server_size five).1

abbrev task_block : ℕ
task_block = libc (with_server.user ++ with_server.traces) task_size

task_block_nonnull : (task_block == 0) ≡ false
task_block_nonnull = ground arith

allocated :
    c_library.libc_malloc task_size with_server
    ≡ some (task_block, record with_server { user = task_block ∷ with_server.user })
unfolding take_user
allocated = rw task_block_nonnull refl

os_tcp_server_create_leaks_example :
    let p : Process (Net Sys) = record { opened = 0 ∷ []; store = net } in
    let server = (allocator.malloc tcp_server_size five).0 in
    let (r, p') = os_tcp_server_create allocator c_library no_thread 900 4 10 8000 300 400 p in
    (r ≡ none)
    × (p'.opened ≡ 3 ∷ 0 ∷ [])
    × (p'.store.tasks ≡ net.tasks)
    × ((a : ℕ) → occurrences a p'.store.store.user ≡ occurrences a five.user + bit (server == a))
os_tcp_server_create_leaks_example =
    os_tcp_server_create_leaks allocator c_library no_thread 900 4 10 8000 300 400 3 task_block
      (record { opened = 0 ∷ []; store = net })
      (record with_server { user = task_block ∷ with_server.user }) (omega arith) (omega arith)
      (omega arith) refl (omega arith) refl allocated tt

abbrev to_all : SockaddrIn
to_all = record { sin_addr = inaddr_broadcast; sin_port = 6000 }

abbrev neighbour : SockaddrIn
neighbour = record { sin_addr = parsed 167772165; sin_port = 6001 }

abbrev broadcast : Broadcast
broadcast = record { self = 6; socket_fd = 3; addr = to_all }

abbrev multicast : Multicast
multicast = record { self = 6; socket_fd = 3; addr = to_all }

-- The second datagram goes to the neighbour alone.
datagrams_follow_senders_example :
    (addresses (
        broadcast_run
          (sends (1 ∷ []) ∷ receives 8 neighbour (2 ∷ []) ∷ sends (1 ∷ []) ∷ [])
          broadcast)
      ≡ to_all ∷ neighbour ∷ [])
    × (addresses (
          multicast_run
            (sends (1 ∷ []) ∷ receives 8 neighbour (2 ∷ []) ∷ sends (1 ∷ []) ∷ [])
            multicast)
        ≡ to_all ∷ neighbour ∷ [])
datagrams_follow_senders_example =
    datagrams_follow_senders (sends (1 ∷ []) ∷ receives 8 neighbour (2 ∷ []) ∷ sends (1 ∷ []) ∷ [])
      broadcast multicast
