-- ===== src/Threadpool.antt =====
-- platform/os/linux/base/os_threadpool.c: threads that take their work from one asynchronous queue.
pub mod Creation
pub mod System
pub mod Backed
pub mod Running
pub mod Worked
pub mod Order
use multi_task_app.Prelude.{
  ℕ, zero, suc, ◌+◌, ◌*◌, ◌==◌, ltb, ◌&&◌, if◌then◌else◌, Bool, true, false, Option, none, some,
  List, [], ◌∷◌,
}
use multi_task_app.Alloc.{Allocator, Libc}
use multi_task_app.AsyncQueue.{
  AsyncQueue, os_async_queue_new, os_async_queue_free, os_async_queue_push,
  os_async_queue_pop_resume,
}
use multi_task_app.Msg.{update}

-- os_threadpool_task_t; both fields are addresses, `function` 0 for NULL.
pub record PoolTask : Type 0 where
  pub function : ℕ
  pub argument : ℕ

-- struct os_threadpool_s with its own address; `threads` is the address of the array. The field
-- `started` is always equal to `thread_count`, and `shutdown` is never read.
pub record Threadpool : Type 0 where
  pub self : ℕ
  pub thread_count : ℕ
  pub queue_size : ℕ
  pub threads : ℕ
  pub queue : Option AsyncQueue

abbrev pub max_threads : ℕ
max_threads = 64

abbrev pub max_queue : ℕ
max_queue = 65536

-- sizeof(os_threadpool_t), of a pthread_t and of an os_threadpool_task_t on a 64-bit target.
abbrev pub pool_size : ℕ
pool_size = 32

abbrev pub pthread_size : ℕ
pthread_size = 8

abbrev pub pool_task_size : ℕ
pool_task_size = 16

-- How os_threadpool_create ends: it returns a pool or NULL, or it never returns, because it joins a
-- worker, whose loop has no end.
pub data Created (S : Type 0) : Type 0 where
  returns : Option Threadpool → S → Created S
  waits : Created S

-- The memory of a running pool: its queue, the tasks at their addresses, and the store.
pub record Work (S : Type 0) : Type 0 where
  pub queue : Option AsyncQueue
  pub tasks : ℕ → PoolTask
  pub store : S

-- The range that RETURN_VAL_IF_FAIL asks for.
abbrev pub in_range : ℕ → ℕ → Bool
in_range thread_count queue_size =
    ltb 0 thread_count
    && ltb thread_count max_threads
    && (ltb 0 queue_size && ltb queue_size max_queue)

module _ (m : Allocator) (l : Libc m) where
  open m use {Store}
  open l use {libc_malloc, libc_free}

  -- os_threadpool_destroy on a pool that is not NULL: `none` where pthread_join waits for a worker.
  -- The pool's own block is not freed.
  unfoldable pub os_threadpool_destroy : Threadpool → Store → Option Store
  os_threadpool_destroy pool s =
      let s' = if pool.threads == 0 then s else libc_free pool.threads s in
      if pool.thread_count == 0 then some (os_async_queue_free m pool.queue s').1 else none

  unfoldable pub given_up : Option Store → Created Store
  given_up none = waits
  given_up (some s) = returns none s

  -- The loop of os_threadpool_create: `starts i` is whether the i-th pthread_create succeeds.
  unfoldable pub start_workers : (ℕ → Bool) → ℕ → Threadpool → Store → Created Store
  unfolding os_threadpool_destroy given_up
  start_workers starts zero pool s = returns (some pool) s
  start_workers starts (suc left) pool s =
      let rest =
        start_workers starts left (record pool { thread_count = pool.thread_count + 1 }) s in
      if starts pool.thread_count then rest else given_up (os_threadpool_destroy pool s)

  -- The array of threads, or label2.
  with_threads : (ℕ → Bool) → ℕ → ℕ → ℕ → AsyncQueue → Store → Option (ℕ × Store) → Created Store
  unfolding start_workers
  with_threads starts thread_count queue_size p q s none =
      returns none (libc_free p (os_async_queue_free m (some q) s).1)
  with_threads starts thread_count queue_size p q s (some (threads, s')) =
      start_workers starts thread_count
        (record {
          self = p;
          thread_count = 0;
          queue_size = queue_size;
          threads = threads;
          queue = some q;
        })
        s'

  -- The queue, or label1.
  with_queue : (ℕ → Bool) → ℕ → ℕ → ℕ → Option AsyncQueue × Store → Created Store
  unfolding with_threads
  with_queue starts thread_count queue_size p (none, s) = returns none (libc_free p s)
  with_queue starts thread_count queue_size p (some q, s) =
      with_threads starts thread_count queue_size p q s
        (libc_malloc (pthread_size * thread_count) s)

  with_pool : (ℕ → Bool) → ℕ → ℕ → Store → Option (ℕ × Store) → Created Store
  unfolding with_queue
  with_pool starts thread_count queue_size s none = returns none s
  with_pool starts thread_count queue_size s (some (p, s')) =
      with_queue starts thread_count queue_size p (os_async_queue_new m s')

  -- For the values of the int parameters that are not negative.
  unfoldable pub os_threadpool_create : (ℕ → Bool) → ℕ → ℕ → Store → Created Store
  unfolding with_pool
  os_threadpool_create starts thread_count queue_size s =
      if in_range thread_count queue_size
      then with_pool starts thread_count queue_size s (libc_malloc pool_size s)
      else returns none s

  pushed_task : ℕ → PoolTask → Work Store → Option (ℕ × Store) → Bool × Work Store
  pushed_task t task w none = (false, w)
  pushed_task t task w (some (p, s)) =
      let (queue, s') = os_async_queue_push m t w.queue p s in
      (true, record { queue = queue; tasks = update w.tasks p task; store = s' })

  -- os_threadpool_add on a pool that is not NULL: whether it returns 0. The signal of the push
  -- prefers thread `t`.
  unfoldable pub os_threadpool_add : ℕ → ℕ → PoolTask → Work Store → Bool × Work Store
  unfolding pushed_task
  os_threadpool_add t queue_size task w =
      if ltb queue_size max_queue
      then pushed_task t task w (libc_malloc pool_task_size w.store)
      else (false, w)

  -- What a worker of os_threadpool_thread does in a round of its loop, in three steps between which
  -- other threads run: os_async_queue_pop gives it the address of a task; it calls the task's
  -- function; it frees the task.
  unfoldable pub worker_pop : ℕ → Work Store → ℕ × Work Store
  worker_pop u w =
      let (p, queue, s) = os_async_queue_pop_resume m w.queue u w.store in
      (p, record w { queue = queue; store = s })

  -- The call for the task at an address, if one is made. A task without a function is not freed.
  unfoldable pub worker_call : ℕ → Work Store → Option PoolTask
  worker_call p w =
      let task = w.tasks p in
      if p == 0 then none else if task.function == 0 then none else some task

  unfoldable pub worker_free : ℕ → Work Store → Work Store
  worker_free p w = record w { store = libc_free p w.store }
