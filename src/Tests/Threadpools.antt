-- ===== src/Tests/Threadpools.antt =====
-- Tests of the thread pool.
use multi_task_app.Prelude.{
  List, map, ◌++◌, ℕ, ◌+◌, ◌*◌, ◌≡◌, ◌≢◌, ◌⊎◌, refl, ◌==◌, bit, Bool, none, some, [], ◌∷◌,
  occurrences, arith,
}
use multi_task_app.Mm.{Sys, os_mm_malloc, take_user}
use multi_task_app.Queue.{os_queue_new}
use multi_task_app.AsyncQueue.{os_async_queue_new}
use multi_task_app.Threadpool.{waits as never_returns}
use multi_task_app.Threadpool.{
  PoolTask, Work, returns, pool_size, pthread_size, os_threadpool_create,
}
use multi_task_app.Threadpool.Creation.{thread_create_fails}
use multi_task_app.AsyncQueue.Fifo.{held}
use multi_task_app.Threadpool.Backed.{count, in_hands}
use multi_task_app.Threadpool.System.{Event, adds, waits, takes, calls, frees, run}
use multi_task_app.Threadpool.Order.{idle, tasks_taken_in_order}
use multi_task_app.Sockets.TcpServer.{TcpServer}
use multi_task_app.Prelude.{◌-◌, ◌≤◌, erase}
use multi_task_app.Sockets.TcpServer.{TcpServerNode, ends, task_routine_tcp_server}
use multi_task_app.Sockets.Shutdown.{
  waiting as before_post, returned, Lifetime, destroyed, destroys, Reach, here, next, begin,
}
use multi_task_app.Sockets.Endless.{server_destroyed}
use multi_task_app.Prelude.{Option}
use multi_task_app.Sockets.TcpServer.{Call, Serving}
use multi_task_app.Sockets.Service.{
  Event as Visit, accepts, waits as waiting, takes as taking, calls as calling, frees as freeing,
  run as serve_all,
}
use multi_task_app.Sockets.Queued.{due, call_of}
use multi_task_app.Sockets.Ordered.{open_for_service, connections_taken_in_order}
use multi_task_app.Tests.World.{
  allocator-Fresh, c_library-Fresh, allocator, c_library, five, empty_queue,
}

-- The first thread is created, the second is not.
abbrev one_thread : ℕ → Bool
one_thread i = i == 0

abbrev second : ℕ
second = 1

abbrev with_block : ℕ → Sys → Sys
with_block p s = record s { user = p ∷ s.user }

abbrev with_queue : Sys
with_queue = (os_async_queue_new allocator (with_block 6 five)).1

pool_allocated : c_library.libc_malloc pool_size five ≡ some (6, with_block 6 five)
unfolding take_user
pool_allocated = refl

threads_allocated :
    c_library.libc_malloc (pthread_size * 2) with_queue ≡ some (13, with_block 13 with_queue)
unfolding take_user os_async_queue_new os_queue_new os_mm_malloc
threads_allocated = refl

thread_create_fails_example :
    ((second ≡ 0)
      × (t : Sys) × (os_threadpool_create allocator c_library one_thread 2 10 five ≡ returns none t)
      × ((x : ℕ) → occurrences x t.user ≡ occurrences x five.user + bit (6 == x)))
    ⊎ ((second ≢ 0)
        × (os_threadpool_create allocator c_library one_thread 2 10 five ≡ never_returns))
thread_create_fails_example =
    thread_create_fails allocator c_library one_thread 2 10 second 6 13 five (with_block 6 five)
      (with_block 13 with_queue) refl pool_allocated threads_allocated (omega arith)
      (λ j h. ground (arith, h)) refl

abbrev job : PoolTask
job = record { function = 500; argument = 3 }

abbrev unused : Work Sys
unused = record { queue = some empty_queue; tasks = λ p. job; store = five }

-- Two workers take a task each, and the second calls first. A third task has not been taken.
abbrev busy : List Event
busy =
    waits 31
    ∷ waits 32
    ∷ adds 31 job
    ∷ adds 32 (record job { argument = 4 })
    ∷ takes 31
    ∷ takes 32
    ∷ calls 32
    ∷ adds 31 (record job { argument = 5 })
    ∷ frees 32
    ∷ []

tasks_taken_in_order_example :
    let end = run allocator c_library 10 busy (idle allocator c_library 10 unused) in
    (ys : List ℕ) × (held end.work.queue ≡ some ys)
    × (end.added ≡ end.taken ++ map end.work.tasks ys)
    × ((f : PoolTask → Bool)
        → count f end.taken
          ≡ count f end.called + count f (map end.work.tasks (in_hands end.holding)))
tasks_taken_in_order_example =
    tasks_taken_in_order allocator c_library 10 busy unused c_library-Fresh
      (omega arith, (omega arith, (omega arith, tt))) refl
      (record { live = λ a. omega arith; nonnull = refl })

abbrev server : TcpServer
server = record {
  self = 90;
  listen_fd = 3;
  threads = 2;
  listen_fds = 10;
  port = 6000;
  task = 91;
  cb = 600;
  user_data = 7;
}

abbrev serving : Serving Sys
serving = record {
  opened = 3 ∷ [];
  nodes = λ p. record { conn_fd = 0; cb = 0; user_data = 0 };
  work = unused;
}

-- Two workers take a connection each, and the second calls first. One comes at the descriptor 0.
abbrev visits : List Visit
visits =
    waiting 31
    ∷ waiting 32
    ∷ accepts 31 4
    ∷ accepts 31 0
    ∷ accepts 32 6
    ∷ taking 31
    ∷ taking 32
    ∷ calling 32
    ∷ freeing 32
    ∷ accepts 31 7
    ∷ []

connections_taken_in_order_example :
    let end =
      serve_all allocator c_library 500 server visits
        (open_for_service allocator c_library 500 server serving) in
    let call = call_of end.serving.nodes end.serving.work.tasks in
    (xs : List ℕ) × (held end.serving.work.queue ≡ some xs)
    × (map (due allocator c_library 500 server) end.accepted ≡ end.taken ++ map call xs)
    × ((f : Option Call → Bool)
        → count f end.taken ≡ count f end.called + count f (map call (in_hands end.holding)))
connections_taken_in_order_example =
    connections_taken_in_order allocator c_library 500 server visits serving allocator-Fresh
      c_library-Fresh (omega arith) (omega arith) refl
      (record { live = λ a. omega arith; nonnull = refl })

-- 70 threads are more than a pool may have.
abbrev overfull : TcpServer
overfull = record server { threads = 70 }

abbrev nodes : ℕ → TcpServerNode
nodes p = record { conn_fd = 0; cb = 0; user_data = 0 }

abbrev begun : Lifetime Sys
begun =
    begin allocator nodes unused.tasks (5 ∷ 3 ∷ []) five
      (task_routine_tcp_server allocator c_library one_thread 0 overfull five)

abbrev over : Lifetime Sys
over = record begun {
  service = destroyed allocator c_library 500 overfull begun.service;
  sem = 0;
  destroy = returned;
}

is_destroyed : Reach allocator c_library 500 overfull begun over
unfolding begin task_routine_tcp_server os_threadpool_create
is_destroyed = next here (destroys 0 refl refl refl)

server_destroyed_example :
    ((over.destroy ≡ before_post)
      × ((a : ℕ) → occurrences a (5 ∷ 3 ∷ []) ≤ occurrences a over.service.serving.opened))
    ⊎ ((over.destroy ≡ returned)
        × (s' : Sys) × (task_routine_tcp_server allocator c_library one_thread 0 overfull five
            ≡ ends s')
        × (over.service.serving.opened ≡ erase 3 (5 ∷ 3 ∷ []))
        × ((a : ℕ)
            → occurrences a over.service.serving.work.store.user
              ≡ occurrences a s'.user - bit (90 == a)))
server_destroyed_example =
    server_destroyed allocator c_library 500 overfull nodes unused.tasks (5 ∷ 3 ∷ []) five
      one_thread 0 over (omega arith) is_destroyed
