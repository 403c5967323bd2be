-- ===== src/Sockets/Shutdown.antt =====
-- os_tcp_server_destroy of os_tcp_server.c beside the server's task: it waits for `sem`, which the
-- task posts behind its loop.
use multi_task_app.Prelude.{ℕ, suc, ◌≡◌, List, [], Option, none, some}
use multi_task_app.Alloc.{Allocator, Libc}
use multi_task_app.AsyncQueue.{AsyncQueue}
use multi_task_app.Sockets.{Process}
use multi_task_app.Sockets.TcpServer.{
  TcpServer, TcpServerNode, Started, serves, ends, joins, faults, os_tcp_server_destroy,
}
use multi_task_app.Sockets.Service.{Event, Service, step}
use multi_task_app.Threadpool.{PoolTask}

-- Where task_routine_tcp_server is: in its loop, waiting for a worker that it joins, behind its
-- sem_post, or in a fault.
pub data TaskAt : Type 0 where
  in_loop joining posted faulted : TaskAt

-- Where os_tcp_server_destroy is: at its sem_wait, or at its end.
pub data DestroyAt : Type 0 where
  waiting returned : DestroyAt

-- A server whose destruction is called, with the count of `sem`.
pub record Lifetime (S : Type 0) : Type 0 where
  pub service : Service S
  pub sem : ℕ
  pub task : TaskAt
  pub destroy : DestroyAt

-- `routine` is the address of thread_pool_tcp_server_routine.
module _ (m : Allocator) (l : Libc m) (routine : ℕ) (server : TcpServer) where
  open m use {Store, free}

  -- os_tcp_server_destroy behind its sem_wait.
  unfoldable pub destroyed : Service Store → Service Store
  destroyed x =
      let p : Process Store = record { opened = x.serving.opened; store = x.serving.work.store } in
      let p' = os_tcp_server_destroy m l (some server) p in
      record x {
        serving = record x.serving {
          opened = p'.opened;
          work = record x.serving.work { store = p'.store };
        };
      }

  -- sem_wait returns only where the count is not 0. Connections and workers come only behind the
  -- start of the loop.
  pub data Step (x y : Lifetime Store) : Type 0 where
    works :
        (e : Event)
        → x.task ≡ in_loop
        → y ≡ record x { service = step m l routine server e x.service }
        → Step x y
    destroys :
        (k : ℕ)
        → x.destroy ≡ waiting
        → x.sem ≡ suc k
        → y ≡ record x { service = destroyed x.service; sem = k; destroy = returned }
        → Step x y

  pub data Reach (x : Lifetime Store) : Lifetime Store → Type 0 where
    here : Reach x x
    next : {y z : Lifetime Store} → Reach x y → Step y z → Reach x z

module _ (m : Allocator) where
  open m use {Store}

  -- No connection yet: `opened` are the descriptors of the process, and what the nodes and the
  -- pool's tasks hold is what the memory holds.
  abbrev pub unvisited :
      (ℕ → TcpServerNode) → (ℕ → PoolTask) → List ℕ → Option AsyncQueue → Store → Service Store
  unvisited nodes tasks opened queue s = record {
    serving = record {
      opened = opened;
      nodes = nodes;
      work = record { queue = queue; tasks = tasks; store = s };
    };
    accepted = [];
    taken = [];
    called = [];
    holding = [];
    calling = [];
  }

  -- What the start of the task leaves to its destruction, from the store `s`.
  unfoldable pub begin :
      (ℕ → TcpServerNode) → (ℕ → PoolTask) → List ℕ → Store → Started Store → Lifetime Store
  begin nodes tasks opened s (serves pool s') = record {
    service = unvisited nodes tasks opened pool.queue s';
    sem = 0;
    task = in_loop;
    destroy = waiting;
  }
  begin nodes tasks opened s (ends s') = record {
    service = unvisited nodes tasks opened none s';
    sem = 1;
    task = posted;
    destroy = waiting;
  }
  begin nodes tasks opened s joins = record {
    service = unvisited nodes tasks opened none s;
    sem = 0;
    task = joining;
    destroy = waiting;
  }
  begin nodes tasks opened s faults = record {
    service = unvisited nodes tasks opened none s;
    sem = 0;
    task = faulted;
    destroy = waiting;
  }
