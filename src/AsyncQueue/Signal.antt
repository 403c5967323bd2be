-- ===== src/AsyncQueue/Signal.antt =====
-- The signals of os_async_queue.c: what pthread_cond_signal and the calls do to the threads that
-- wait.
use multi_task_app.Prelude.{
  ℕ, suc, ◌+◌, ◌≤◌, ◌≡◌, ◌≢◌, refl, Option, none, some, List, [], ◌∷◌, length, occurrences, erase,
  arith,
}
use multi_task_app.Alloc.{Allocator}
use multi_task_app.AsyncQueue.{
  AsyncQueue, signal, os_async_queue_pop_wait, os_async_queue_pop_resume,
}
use multi_task_app.AsyncQueue.System.{Event, pushes, calls, wakes, resumes, woken_of}

pub length-erase :
    (t : ℕ) (ws : List ℕ) → occurrences t ws ≢ 0 → suc (length (erase t ws)) ≡ length ws
length-erase t [] h = absurd (h refl)
length-erase t (w ∷ ws) h = ground (arith, length-erase t ws)

-- A signal releases one of the threads that wait, and none if none waits.
pub signal-length :
    (t : ℕ) (ws : List ℕ) → length (signal t ws).0 + length (signal t ws).1 ≡ length ws
unfolding signal
signal-length t [] = refl
signal-length t (w ∷ ws) = ground (arith, length-erase t (w ∷ ws))

pub signal_first :
    (t w : ℕ) (ws : List ℕ)
    → (length (signal t (w ∷ ws)).0 ≡ 1) × (length (signal t (w ∷ ws)).1 ≡ length ws)
unfolding signal
signal_first t w ws =
    let one : length (signal t (w ∷ ws)).0 ≡ 1 = ground arith in
    (one, omega (arith, one, signal-length t (w ∷ ws)))

pub signal-le : (t : ℕ) (ws : List ℕ) → length (signal t ws).0 ≤ 1
unfolding signal
signal-le t [] = omega arith
signal-le t (w ∷ ws) = ground arith

-- Only calls of os_async_queue_pop, begun and ended: no push, and no wake without a signal.
abbrev pub AllQuiet : List Event → Type 0
AllQuiet [] = Unit {0}
AllQuiet (pushes t d ∷ es) = ⊥
AllQuiet (wakes t ∷ es) = ⊥
AllQuiet (calls t ∷ es) = AllQuiet es
AllQuiet (resumes t ∷ es) = AllQuiet es

-- Each wait is ended by a signal.
abbrev pub AllSignalled : List Event → Type 0
AllSignalled [] = Unit {0}
AllSignalled (wakes t ∷ es) = ⊥
AllSignalled (pushes t d ∷ es) = AllSignalled es
AllSignalled (calls t ∷ es) = AllSignalled es
AllSignalled (resumes t ∷ es) = AllSignalled es

pub pop_wait-woken :
    (t : ℕ) (q : Option AsyncQueue) → woken_of (os_async_queue_pop_wait q t) ≡ woken_of q
unfolding os_async_queue_pop_wait woken_of
pop_wait-woken t none = refl
pop_wait-woken t (some q) = refl

module _ (m : Allocator) where
  open m use {Store}

  pub pop-woken :
      (t : ℕ) (q : Option AsyncQueue) (s : Store)
      → woken_of (os_async_queue_pop_resume m q t s).1 ≡ erase t (woken_of q)
  unfolding os_async_queue_pop_resume woken_of
  pop-woken t none s = refl
  pop-woken t (some q) s = refl
