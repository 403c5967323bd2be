-- ===== src/Sockets/Service.antt =====
-- A server of os_tcp_server.c at work, as a sequence of events that the scheduler and the clients
-- choose: its task accepts connections, and the workers of its pool handle them.
use multi_task_app.Prelude.{
  ℕ, ◌==◌, if◌then◌else◌, Bool, Option, none, some, List, [], ◌∷◌, ◌++◌, occurrences,
}
use multi_task_app.Alloc.{Allocator, Libc}
use multi_task_app.AsyncQueue.{os_async_queue_pop_wait}
use multi_task_app.AsyncQueue.System.{woken_of, wake}
use multi_task_app.Threadpool.{PoolTask, os_threadpool_add, worker_pop, worker_call, worker_free}
use multi_task_app.Threadpool.System.{Hands, part}
use multi_task_app.Sockets.TcpServer.{
  Call, TcpServer, Serving, tcp_server_node_size, tcp_server_queue_max, accept_round,
  tcp_server_routine, routine_end,
}

-- `accepts t conn_fd`: accept gives the task this connection, and the signal prefers thread `t`.
-- `waits u`: worker `u` calls os_async_queue_pop. `wakes u`: its wait ends without a signal.
-- `takes u`: its wait is over, and os_async_queue_pop returns. `calls u`: it calls the routine of
-- the task that it took, which calls the callback. `frees u`: the callback has returned, and the
-- routine frees its node and the worker its task.
pub data Event : Type 0 where
  accepts : ℕ → ℕ → Event
  waits wakes takes calls frees : ℕ → Event

-- `accepted` holds the connections that the pool took on, `taken` the call that is due for each task
-- that a worker took, and `called` the call of each run of the routine, oldest first. `holding` are the workers before
-- their calls, `calling` those in them.
pub record Service (S : Type 0) : Type 0 where
  pub serving : Serving S
  pub accepted : List ℕ
  pub taken : List (Option Call)
  pub called : List (Option Call)
  pub holding : Hands
  pub calling : Hands

-- `routine` is the address of thread_pool_tcp_server_routine, the function of all tasks.
module _ (m : Allocator) (l : Libc m) (routine : ℕ) (server : TcpServer) where
  open m use {Store, malloc}

  -- Whether os_threadpool_add returns 0 in the round that accepts a connection.
  unfoldable pub takes_on : ℕ → Serving Store → Bool
  takes_on t x =
      let (node, s) = malloc tcp_server_node_size x.work.store in
      let job : PoolTask = record { function = routine; argument = node } in
      (os_threadpool_add m l t tcp_server_queue_max job (record x.work { store = s })).0

  unfoldable pub note_taken : Option PoolTask → ℕ → ℕ → Service Store → Service Store
  note_taken none u p x = x
  note_taken (some task) u p x =
      let call = tcp_server_routine m l task.argument x.serving in
      record x { taken = x.taken ++ call ∷ []; holding = (u, p) ∷ x.holding }

  unfoldable pub note_called : ℕ → Option ℕ × Hands → Service Store → Service Store
  note_called u (none, rest) x = x
  note_called u (some p, rest) x =
      let call = tcp_server_routine m l (x.serving.work.tasks p).argument x.serving in
      record x { called = x.called ++ call ∷ []; holding = rest; calling = (u, p) ∷ x.calling }

  unfoldable pub note_freed : Option ℕ × Hands → Service Store → Service Store
  note_freed (none, rest) x = x
  note_freed (some p, rest) x =
      let serving = routine_end m l (x.serving.work.tasks p).argument x.serving in
      record x {
        serving = record serving { work = worker_free m l p serving.work };
        calling = rest;
      }

  unfoldable pub step : Event → Service Store → Service Store
  unfolding takes_on note_taken note_called note_freed
  step (accepts t conn_fd) x =
      let x' = record x { serving = accept_round m l t routine server (some conn_fd) x.serving } in
      if conn_fd == 0
      then x'
      else if takes_on t x.serving
      then record x' { accepted = x.accepted ++ conn_fd ∷ [] }
      else x'
  step (waits u) x = record x {
    serving = record x.serving {
      work = record x.serving.work { queue = os_async_queue_pop_wait x.serving.work.queue u };
    };
  }
  step (wakes u) x = record x {
    serving = record x.serving {
      work = record x.serving.work { queue = wake u x.serving.work.queue };
    };
  }
  step (takes u) x =
      let (p, w) = worker_pop m l u x.serving.work in
      if occurrences u (woken_of x.serving.work.queue) == 0
      then x
      else note_taken (worker_call m l p w) u p
          (record x { serving = record x.serving { work = w } })
  step (calls u) x = note_called u (part u x.holding) x
  step (frees u) x = note_freed (part u x.calling) x

  unfoldable pub run : List Event → Service Store → Service Store
  unfolding step
  run [] x = x
  run (e ∷ es) x = run es (step e x)
