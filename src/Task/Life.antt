-- ===== src/Task/Life.antt =====
-- The life of a task in os_task.c: os_task_create and os_task_create2, __os_task_routine, and
-- os_task_exit.
use multi_task_app.Prelude.{
  ℕ, ◌==◌, ltb, if◌then◌else◌, Bool, true, false, Option, none, some, List, [], ◌∷◌, ◌++◌, String,
}
use multi_task_app.Alloc.{Allocator, Libc}
use multi_task_app.Task.{Task, MmNode, find}
use multi_task_app.AsyncQueue.{AsyncQueue, os_async_queue_new, os_async_queue_free}
use multi_task_app.Msg.{Net, update}

-- The parameters of os_task_create; `func` and `arg` are addresses, `func` 0 for NULL.
pub record Params : Type 0 where
  pub name : String
  pub stack_size : ℕ
  pub priority : ℕ
  pub func : ℕ
  pub arg : ℕ

-- sizeof(os_task_t) on a 64-bit target.
abbrev pub task_size : ℕ
task_size = 136

abbrev pub aq_addr : Option AsyncQueue → ℕ
aq_addr none = 0
aq_addr (some q) = q.addr

-- The task as memset and the assignments leave it: its thread has not set `tid` and `pid`.
abbrev pub new_task : Params → ℕ → ℕ → Task
new_task c self q = record {
  self = self;
  name = c.name;
  stack_size = c.stack_size;
  priority = c.priority;
  func = c.func;
  arg = c.arg;
  tid = 0;
  pid = 0;
  q = q;
  head = [];
}

-- list_del of the task at an address.
unfoldable pub delist : ℕ → List Task → List Task
delist self [] = []
delist self (t ∷ ts) = let rest = delist self ts in if self == t.self then ts else t ∷ rest

unfoldable pub set_thread : ℕ → ℕ → ℕ → List Task → List Task
set_thread self tid pid [] = []
set_thread self tid pid (t ∷ ts) =
    let rest = set_thread self tid pid ts in
    if self == t.self then record t { tid = tid; pid = pid } ∷ ts else t ∷ rest

abbrev pub func_of : Option Task → ℕ
func_of none = 0
func_of (some t) = t.func

-- __os_task_init: the calling thread, named `comm`, becomes a task without a queue; `self` is the
-- address of the static `_task`.
unfoldable pub os_task_init : ℕ → String → ℕ → ℕ → List Task → List Task
os_task_init self comm tid pid ts =
    ts
    ++ record {
      self = self;
      name = comm;
      stack_size = 0;
      priority = 0;
      func = 0;
      arg = 0;
      tid = tid;
      pid = pid;
      q = 0;
      head = [];
    }
      ∷ []

module _ (m : Allocator) (l : Libc m) where
  open m use {Store}

  -- os_async_queue_free of the queue at an address, which may be NULL.
  unfoldable pub free_queue : ℕ → Net Store → Net Store
  free_queue q n =
      let (released, s) = os_async_queue_free m (n.queues q) n.store in
      if q == 0 then n else record n { queues = update n.queues q none; store = s }

  -- The task is put in the list, and its thread created; if that fails, all is undone. The
  -- address of the task, or NULL.
  unfoldable pub start : Bool → Task → Net Store → ℕ × Net Store
  unfolding delist
  start true t n = (t.self, record n { tasks = n.tasks ++ t ∷ [] })
  start false t n =
      let n' = free_queue t.q n in
      (
        0,
        record n' {
          tasks = delist t.self (n'.tasks ++ t ∷ []);
          store = l.libc_free t.self n'.store;
        },
      )

  -- A new queue, in the memory at its address.
  unfoldable pub with_new_queue : Net Store → ℕ × Net Store
  with_new_queue n =
      let (q, s) = os_async_queue_new m n.store in
      (aq_addr q, record n { queues = update n.queues (aq_addr q) q; store = s })

  -- `created` is whether pthread_create succeeds.
  fill_task : Bool → Params → Bool → Option (ℕ × Store) → Net Store → ℕ × Net Store
  fill_task created c async none n = (0, n)
  fill_task created c true (some (self, s)) n =
      let (q, n') = with_new_queue (record n { store = s }) in start created (new_task c self q) n'
  fill_task created c false (some (self, s)) n =
      start created (new_task c self 0) (record n { store = s })

  -- The traces of the MALLOCs of os_async_queue_new are in the store of `m`, not at the heads of
  -- `n.tasks`.
  unfoldable pub os_task_create : Bool → Params → Net Store → ℕ × Net Store
  unfolding fill_task
  os_task_create created c n = fill_task created c true (l.libc_malloc task_size n.store) n

  stopped : Bool → Params → Bool → Option (ℕ × Store) → Net Store → Option (ℕ × Net Store)
  unfolding fill_task
  stopped created c async none n = none
  stopped created c async (some r) n = some (fill_task created c async (some r) n)

  -- The assert on malloc's result stops the process: `none`. `async` is the int parameter, for the
  -- values that are not negative.
  unfoldable pub os_task_create2 : Bool → Params → ℕ → Net Store → Option (ℕ × Net Store)
  unfolding stopped
  os_task_create2 created c async n =
      stopped created c (ltb 0 async) (l.libc_malloc task_size n.store) n

  -- The entries of the task's traces are freed one by one.
  unfoldable pub free_traces : List MmNode → Store → Store
  free_traces [] s = s
  free_traces (mnode ∷ rest) s = free_traces rest (l.libc_free mnode.self s)

  exit_found : Option Task → Net Store → Net Store
  unfolding free_queue delist free_traces
  exit_found none n = n
  exit_found (some t) n =
      let n' = free_queue t.q n in
      record n' {
        tasks = delist t.self n'.tasks;
        store = l.libc_free t.self (free_traces t.head n'.store);
      }

  -- os_task_exit reads the task at the address; each task that a thread runs is in the list.
  unfoldable pub os_task_exit : ℕ → Net Store → Net Store
  unfolding exit_found
  os_task_exit self n = exit_found (find (λ t. self == t.self) n.tasks) n

  -- __os_task_routine on the thread `tid`, `pid`; `body` is what the call of `func` does.
  unfoldable pub os_task_routine : ℕ → ℕ → (Net Store → Net Store) → ℕ → Net Store → Net Store
  unfolding os_task_exit set_thread
  os_task_routine tid pid body self n =
      let n' = record n { tasks = set_thread self tid pid n.tasks } in
      let func = func_of (find (λ t. self == t.self) n'.tasks) in
      if self == 0 then n else os_task_exit self (if func == 0 then n' else body n')
