-- ===== src/App/Deadlock.antt =====
-- One of the tasks lock and die_lock of init/main.c waits forever.
use multi_task_app.Prelude.{ℕ, ◌+◌, ◌≡◌, refl, sym, ap, ◌∙◌, Bool, true, false, arith}
use multi_task_app.App.Locks.{
  LockAt, locking, looping, DieLockAt, sleeping, die_locking, holding, returned, Tasks, initial,
  Step, task_routine_loop, lock_locks, lock_sleeps, die_lock_wakes, die_lock_locks,
  die_lock_returns, Reach, here, next,
}

-- How many calls of pthread_mutex_lock have returned in each of the tasks.
abbrev pub lock_passes : LockAt → ℕ
lock_passes locking = 0
lock_passes looping = 1

abbrev pub die_lock_passes : DieLockAt → ℕ
die_lock_passes sleeping = 0
die_lock_passes die_locking = 0
die_lock_passes holding = 1
die_lock_passes returned = 1

abbrev taken : Bool → ℕ
taken true = 1
taken false = 0

-- The mutex is taken once, by the task that has passed.
abbrev IsTaken : Tasks → Type 0
IsTaken s = lock_passes s.lock + die_lock_passes s.die_lock ≡ taken s.locked

Step-IsTaken : (s t : Tasks) → Step s t → IsTaken s → IsTaken t
Step-IsTaken s t (task_routine_loop e) h = rw e h
Step-IsTaken s t (lock_locks free at e) h = let h' = rw (free, at) at h in rw e (omega (arith, h'))
Step-IsTaken s t (lock_sleeps at e) h = rw e h
Step-IsTaken s t (die_lock_wakes at e) h = let h' = rw at at h in rw e h'
Step-IsTaken s t (die_lock_locks free at e) h =
    let h' = rw (free, at) at h in rw e (omega (arith, h'))
Step-IsTaken s t (die_lock_returns at e) h = let h' = rw at at h in rw e h'

absurd_lock : {A : Type 0} → {b : Bool} → b ≡ true → b ≡ false → A
absurd_lock locked free = cc

-- Behind a taken mutex no task takes it.
abbrev Same : Tasks → Tasks → Type 0
Same s t =
    (t.locked ≡ true)
    × (lock_passes t.lock ≡ lock_passes s.lock)
    × (die_lock_passes t.die_lock ≡ die_lock_passes s.die_lock)

Step-Same : (s t : Tasks) → s.locked ≡ true → Step s t → Same s t
Step-Same s t locked (task_routine_loop e) = rw e (locked, refl, refl)
Step-Same s t locked (lock_locks free at e) = absurd_lock locked free
Step-Same s t locked (lock_sleeps at e) = rw e (locked, refl, refl)
Step-Same s t locked (die_lock_wakes at e) = rw e (locked, refl, sym (ap die_lock_passes at))
Step-Same s t locked (die_lock_locks free at e) = absurd_lock locked free
Step-Same s t locked (die_lock_returns at e) = rw e (locked, refl, sym (ap die_lock_passes at))

Reach-Same : (s t : Tasks) → s.locked ≡ true → Reach s t → Same s t
Reach-Same s _ locked here = (locked, refl, refl)
Reach-Same s u locked (next {t} r step) =
    let (locked', lock, die) = Reach-Same s t locked r in
    let (locked'', lock', die') = Step-Same t u locked' step in (locked'', lock' ∙ lock, die' ∙ die)

Reach-IsTaken : (s t : Tasks) → Reach s t → IsTaken s → IsTaken t
Reach-IsTaken s _ here h = h
Reach-IsTaken s u (next {t} r step) h = Step-IsTaken t u step (Reach-IsTaken s t r h)

-- Once one of the tasks lock and die_lock has taken dieMutex, under every schedule of the tasks
-- exactly one of the two has passed its pthread_mutex_lock, and it stays the same one: the other
-- waits in its call forever, also after task_routine_die_lock has returned.
pub one_never_passes :
    (s t : Tasks)
    → Reach initial s
    → s.locked ≡ true
    → Reach s t
    → (lock_passes t.lock + die_lock_passes t.die_lock ≡ 1)
      × (lock_passes t.lock ≡ lock_passes s.lock)
      × (die_lock_passes t.die_lock ≡ die_lock_passes s.die_lock)
one_never_passes s t r locked r' =
    let (locked', lock, die) = Reach-Same s t locked r' in
    let h = rw locked' at (Reach-IsTaken s t r' (Reach-IsTaken initial s r refl)) in (h, lock, die)
