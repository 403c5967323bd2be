-- ===== src/App/Locks.antt =====
-- The tasks lock and die_lock of init/main.c, which share the mutex dieMutex, and the task loop.
use multi_task_app.Prelude.{Bool, true, false, ◌≡◌}

-- Where task_routine_lock is: at its call of pthread_mutex_lock, or in its loop behind it.
pub data LockAt : Type 0 where
  locking looping : LockAt

-- Where task_routine_die_lock is: in its first os_sleep, at its call of pthread_mutex_lock, in the
-- os_sleep behind it, or at its end.
pub data DieLockAt : Type 0 where
  sleeping die_locking holding returned : DieLockAt

-- The mutex, and the two tasks.
pub record Tasks : Type 0 where
  pub locked : Bool
  pub lock : LockAt
  pub die_lock : DieLockAt

-- PTHREAD_MUTEX_INITIALIZER, and the tasks at their starts.
abbrev pub initial : Tasks
initial = record { locked = false; lock = locking; die_lock = sleeping }

-- pthread_mutex_lock returns only where the mutex is free. No task unlocks it, and the round of
-- task_routine_loop changes nothing.
pub data Step (s t : Tasks) : Type 0 where
  task_routine_loop : t ≡ s → Step s t
  lock_locks :
      s.locked ≡ false
      → s.lock ≡ locking
      → t ≡ record s { locked = true; lock = looping }
      → Step s t
  lock_sleeps : s.lock ≡ looping → t ≡ s → Step s t
  die_lock_wakes : s.die_lock ≡ sleeping → t ≡ record s { die_lock = die_locking } → Step s t
  die_lock_locks :
      s.locked ≡ false
      → s.die_lock ≡ die_locking
      → t ≡ record s { locked = true; die_lock = holding }
      → Step s t
  die_lock_returns : s.die_lock ≡ holding → t ≡ record s { die_lock = returned } → Step s t

pub data Reach (s : Tasks) : Tasks → Type 0 where
  here : Reach s s
  next : {t u : Tasks} → Reach s t → Step t u → Reach s u
