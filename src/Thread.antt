-- ===== src/Thread.antt =====
-- platform/os/linux/base/os_thread.c: mutexes, conditions and semaphores behind handles. The
-- object itself is in a block that the functions take from malloc.
pub mod Blocks
use multi_task_app.Prelude.{ℕ, ◌==◌, if◌then◌else◌, Option, none, some}
use multi_task_app.Alloc.{Allocator, Libc}
use multi_task_app.Msg.{update}

-- What the functions return: an int that is not negative, or -1.
pub data Ret : Type 0 where
  code : ℕ → Ret
  minus_one : Ret

-- struct timespec.
pub record Timespec : Type 0 where
  pub tv_sec : ℕ
  pub tv_nsec : ℕ

-- libpthread, with a state of its own: the functions take the addresses of their objects.
pub record Pthread (P : Type 0) : Type 0 where
  pub pthread_create : ℕ → ℕ → P → Ret × ℕ × P
  pub pthread_join : ℕ → ℕ → P → Ret × P
  pub pthread_self : P → ℕ
  pub pthread_detach : ℕ → P → Ret × P
  pub pthread_exit : ℕ → P → P
  pub pthread_mutex_init : ℕ → P → Ret × P
  pub pthread_mutex_destroy : ℕ → P → Ret × P
  pub pthread_mutex_lock : ℕ → P → Ret × P
  pub pthread_mutex_trylock : ℕ → P → Ret × P
  pub pthread_mutex_unlock : ℕ → P → Ret × P
  pub pthread_cond_init : ℕ → P → Ret × P
  pub pthread_cond_destroy : ℕ → P → Ret × P
  pub pthread_cond_timedwait : ℕ → ℕ → Timespec → P → Ret × P
  pub pthread_cond_wait : ℕ → ℕ → P → Ret × P
  pub pthread_cond_broadcast : ℕ → P → Ret × P
  pub pthread_cond_signal : ℕ → P → Ret × P
  pub sem_init : ℕ → ℕ → ℕ → P → Ret × P
  pub sem_wait : ℕ → P → Ret × P
  pub sem_trywait : ℕ → P → Ret × P
  pub sem_post : ℕ → P → Ret × P
  pub sem_destroy : ℕ → P → Ret × P

-- The handles at their addresses, libpthread's state, and the store.
pub record Memory (P S : Type 0) : Type 0 where
  pub handles : ℕ → ℕ
  pub native : P
  pub store : S

-- sizeof(pthread_mutex_t), sizeof(pthread_cond_t) and sizeof(sem_t) on a 64-bit target.
abbrev pub mutex_size : ℕ
mutex_size = 40

abbrev pub cond_size : ℕ
cond_size = 48

abbrev pub sem_size : ℕ
sem_size = 32

module _ (m : Allocator) (l : Libc m) (P : Type 0) (pthread : Pthread P) where
  open m use {Store}

  -- What each function for an object does: it hands on the object behind the handle.
  unfoldable pub through : (ℕ → P → Ret × P) → ℕ → Memory P Store → Ret × Memory P Store
  through call at w =
      let (ret, native) = call (w.handles at) w.native in (ret, record w { native = native })

  -- The test `0 == ret`: the handle is written, or the block is given back.
  unfoldable pub settled : ℕ → ℕ → Ret × P → Memory P Store → Ret × Memory P Store
  settled at p (code ret, native) w =
      if ret == 0
      then (code ret, record w { handles = update w.handles at p; native = native })
      else (minus_one, record w { native = native; store = l.libc_free p w.store })
  settled at p (minus_one, native) w =
      (minus_one, record w { native = native; store = l.libc_free p w.store })

  -- The body that the three functions for a new object share.
  unfoldable pub init :
      (ℕ → P → Ret × P) → ℕ → Option (ℕ × Store) → Memory P Store → Ret × Memory P Store
  unfolding settled
  init call at none w = (minus_one, w)
  init call at (some (p, s)) w = settled at p (call p w.native) (record w { store = s })

  -- *tid is written only if the thread is created.
  created : ℕ → Ret × ℕ × P → Memory P Store → Ret × Memory P Store
  created tid (code ret, id, native) w =
      if ret == 0
      then (code 0, record w { handles = update w.handles tid id; native = native })
      else (minus_one, record w { native = native })
  created tid (minus_one, id, native) w = (minus_one, record w { native = native })

  unfoldable pub os_pthread_create : ℕ → ℕ → ℕ → Memory P Store → Ret × Memory P Store
  unfolding created
  os_pthread_create tid func arg w = created tid (pthread.pthread_create func arg w.native) w

  -- The thread ids are passed by value.
  unfoldable pub os_pthread_join : ℕ → ℕ → Memory P Store → Ret × Memory P Store
  os_pthread_join tid status w =
      let (ret, native) = pthread.pthread_join tid status w.native in
      (ret, record w { native = native })

  unfoldable pub os_pthread_self : Memory P Store → ℕ
  os_pthread_self w = pthread.pthread_self w.native

  unfoldable pub os_pthread_detach : ℕ → Memory P Store → Ret × Memory P Store
  os_pthread_detach tid w =
      let (ret, native) = pthread.pthread_detach tid w.native in (ret, record w { native = native })

  unfoldable pub os_pthread_exit : ℕ → Memory P Store → Memory P Store
  os_pthread_exit status w = record w { native = pthread.pthread_exit status w.native }

  unfoldable pub os_pthread_mutex_init : ℕ → Memory P Store → Ret × Memory P Store
  unfolding init
  os_pthread_mutex_init mutex w =
      init pthread.pthread_mutex_init mutex (l.libc_malloc mutex_size w.store) w

  unfoldable pub os_pthread_mutex_destroy : ℕ → Memory P Store → Ret × Memory P Store
  unfolding through
  os_pthread_mutex_destroy mutex w = through pthread.pthread_mutex_destroy mutex w

  unfoldable pub os_pthread_mutex_lock : ℕ → Memory P Store → Ret × Memory P Store
  unfolding through
  os_pthread_mutex_lock mutex w = through pthread.pthread_mutex_lock mutex w

  unfoldable pub os_pthread_mutex_trylock : ℕ → Memory P Store → Ret × Memory P Store
  unfolding through
  os_pthread_mutex_trylock mutex w = through pthread.pthread_mutex_trylock mutex w

  unfoldable pub os_pthread_mutex_unlock : ℕ → Memory P Store → Ret × Memory P Store
  unfolding through
  os_pthread_mutex_unlock mutex w = through pthread.pthread_mutex_unlock mutex w

  unfoldable pub os_pthread_cond_init : ℕ → Memory P Store → Ret × Memory P Store
  unfolding init
  os_pthread_cond_init cond w =
      init pthread.pthread_cond_init cond (l.libc_malloc cond_size w.store) w

  unfoldable pub os_pthread_cond_destroy : ℕ → Memory P Store → Ret × Memory P Store
  unfolding through
  os_pthread_cond_destroy cond w = through pthread.pthread_cond_destroy cond w

  -- The time that libpthread is given is all 0: `abstime`, here the field `res`, is not looked at.
  unfoldable pub os_pthread_cond_timedwait : ℕ → ℕ → ℕ → Memory P Store → Ret × Memory P Store
  unfolding through
  os_pthread_cond_timedwait cond mutex abstime w =
      through
        (λ c.
          pthread.pthread_cond_timedwait c (w.handles mutex) (record { tv_sec = 0; tv_nsec = 0 }))
        cond w

  unfoldable pub os_pthread_cond_wait : ℕ → ℕ → Memory P Store → Ret × Memory P Store
  unfolding through
  os_pthread_cond_wait cond mutex w =
      through (λ c. pthread.pthread_cond_wait c (w.handles mutex)) cond w

  unfoldable pub os_pthread_cond_broadcast : ℕ → Memory P Store → Ret × Memory P Store
  unfolding through
  os_pthread_cond_broadcast cond w = through pthread.pthread_cond_broadcast cond w

  unfoldable pub os_pthread_cond_signal : ℕ → Memory P Store → Ret × Memory P Store
  unfolding through
  os_pthread_cond_signal cond w = through pthread.pthread_cond_signal cond w

  unfoldable pub os_sem_init : ℕ → ℕ → ℕ → Memory P Store → Ret × Memory P Store
  unfolding init
  os_sem_init sem pshared value w =
      init (λ p. pthread.sem_init p pshared value) sem (l.libc_malloc sem_size w.store) w

  unfoldable pub os_sem_wait : ℕ → Memory P Store → Ret × Memory P Store
  unfolding through
  os_sem_wait sem w = through pthread.sem_wait sem w

  unfoldable pub os_sem_trywait : ℕ → Memory P Store → Ret × Memory P Store
  unfolding through
  os_sem_trywait sem w = through pthread.sem_trywait sem w

  unfoldable pub os_sem_post : ℕ → Memory P Store → Ret × Memory P Store
  unfolding through
  os_sem_post sem w = through pthread.sem_post sem w

  unfoldable pub os_sem_destroy : ℕ → Memory P Store → Ret × Memory P Store
  unfolding through
  os_sem_destroy sem w = through pthread.sem_destroy sem w
