-- ===== src/AsyncQueue/Handover.antt =====
-- From a push to the thread that it releases: os_async_queue.c where the signals are heard.
use mathlib.Core.Bool.{false}
use multi_task_app.Prelude.{
  ℕ, suc, ◌+◌, ◌≤◌, ◌≡◌, ◌≢◌, refl, ap, ◌∙◌, ◌==◌, Bool-cases, inl, inr, Option, none, some, List,
  [], ◌∷◌, ◌++◌, head_or, drop_first, length, length-append, occurrences, erase, arith,
}
use multi_task_app.Alloc.{Allocator}
use multi_task_app.AsyncQueue.{AsyncQueue, os_async_queue_push, os_async_queue_pop_resume}
use multi_task_app.AsyncQueue.System.{
  Event, pushes, calls, wakes, resumes, Sys, waiting_of, woken_of, step, run,
}
use multi_task_app.AsyncQueue.Fifo.{
  held, push-held, pop-held, pop_wait-held, AllNonNull, AllNonNull-append, AllNonNull-drop_first,
  pushed_by, pushed_by-AllNonNull,
}
use multi_task_app.AsyncQueue.Signal.{
  length-erase, signal_first, signal-le, AllSignalled, pop_wait-woken, pop-woken,
}

head_or-pushed :
    (t d : ℕ) (xs : List ℕ) → d ≢ 0 → head_or 0 (xs ++ pushed_by (pushes t d)) ≡ head_or d xs
head_or-pushed t d [] n = ground (arith, n)
head_or-pushed t d (x ∷ xs) n = refl

module _ (m : Allocator) where
  open m use {Store}

  push-woken-le :
      (t d : ℕ) (q : Option AsyncQueue) (s : Store)
      → length (woken_of (os_async_queue_push m t q d s).0)
        ≤ length (woken_of q) + length (pushed_by (pushes t d))
  unfolding os_async_queue_push woken_of
  push-woken-le t d none s = omega arith
  push-woken-le t d (some q) s = elim (Bool-cases (d == 0)) [
    | inl e ↦ rw e (omega arith)
    | inr e ↦ rw (e, length-append q.woken) (omega (arith, signal-le t q.waiting))
  ]

  -- Every released thread has an item to take, and no call has returned NULL.
  record IsMatched (s : Sys Store) (xs : List ℕ) : Type 0 where
    holds : held s.aq ≡ some xs
    nonnull : AllNonNull xs
    enough : length (woken_of s.aq) ≤ length xs
    results : AllNonNull s.log

  take_matched : (k : ℕ) (xs : List ℕ) → suc k ≤ length xs → k ≤ length (drop_first xs)
  take_matched k [] h = absurd (omega arith)
  take_matched k (x ∷ xs) h = omega arith

  head-NonNull : (k : ℕ) (xs : List ℕ) → suc k ≤ length xs → AllNonNull xs → head_or 0 xs ≢ 0
  head-NonNull k [] h v = absurd (omega arith)
  head-NonNull k (x ∷ xs) h v = v.0

  step-IsMatched :
      (e : Event) (s : Sys Store) (xs : List ℕ)
      → AllSignalled (e ∷ [])
      → IsMatched s xs
      → (ys : List ℕ) × IsMatched (step m e s) ys
  unfolding step
  step-IsMatched (wakes t) s xs q v = absurd q
  step-IsMatched (pushes t d) s xs q v = (
    xs ++ pushed_by (pushes t d),
    record {
      holds = push-held m t d s.aq s.store xs v.holds;
      nonnull = AllNonNull-append xs _ v.nonnull (pushed_by-AllNonNull t d);
      enough = omega (
        arith,
        push-woken-le t d s.aq s.store,
        v.enough,
        length-append {0} xs (pushed_by (pushes t d)),
      );
      results = v.results;
    },
  )
  step-IsMatched (calls t) s xs q v =
      elim (Bool-cases (occurrences t (waiting_of s.aq) + occurrences t (woken_of s.aq) == 0)) [
        | inl e ↦ (
          xs,
          rw e (record {
            holds = pop_wait-held t s.aq ∙ v.holds;
            nonnull = v.nonnull;
            enough = rw (pop_wait-woken t s.aq) v.enough;
            results = v.results;
          }),
        )
        | inr e ↦ (xs, rw e v)
      ]
  step-IsMatched (resumes t) s xs q v =
      let (result, rest) = pop-held m t s.aq s.store xs v.holds in
      elim (Bool-cases (occurrences t (woken_of s.aq) == 0)) [
        | inl e ↦ (xs, rw e v)
        | inr e ↦
            let shorter : suc (length (erase t (woken_of s.aq))) ≤ length xs =
              omega (arith, v.enough, length-erase t (woken_of s.aq) (λ z. ground (arith, e, z))) in
            (
              drop_first xs,
              rw e (record {
                holds = rest;
                nonnull = AllNonNull-drop_first xs v.nonnull;
                enough = rw (pop-woken m t s.aq s.store) (take_matched _ xs shorter);
                results =
                    AllNonNull-append s.log _ v.results
                      (rw result (head-NonNull _ xs shorter v.nonnull), tt);
              }),
            )
      ]

  run-IsMatched :
      (es : List Event) (s : Sys Store) (xs : List ℕ)
      → AllSignalled es
      → IsMatched s xs
      → AllNonNull (run m es s).log
  unfolding run
  run-IsMatched [] s xs q v = v.results
  run-IsMatched (wakes t ∷ es) s xs q v = absurd q
  run-IsMatched (pushes t d ∷ es) s xs q v =
      let (ys, w) = step-IsMatched (pushes t d) s xs tt v in run-IsMatched es _ ys q w
  run-IsMatched (calls t ∷ es) s xs q v =
      let (ys, w) = step-IsMatched (calls t) s xs tt v in run-IsMatched es _ ys q w
  run-IsMatched (resumes t ∷ es) s xs q v =
      let (ys, w) = step-IsMatched (resumes t) s xs tt v in run-IsMatched es _ ys q w

  -- If every wait ends by a signal, and each signal releases one thread, then no call of
  -- os_async_queue_pop returns NULL, under any schedule that starts with an empty queue and no
  -- thread in a call.
  pub signalled_pop_nonnull :
      (es : List Event) (q : Option AsyncQueue) (store : Store)
      → held q ≡ some []
      → woken_of q ≡ []
      → AllSignalled es
      → AllNonNull (run m es (record { aq = q; store = store; log = [] })).log
  signalled_pop_nonnull es q store h w k =
      run-IsMatched es _ [] k
        (record { holds = h; nonnull = tt; enough = rw w (omega arith); results = tt })

  push-first :
      (t d u : ℕ) (xs : List ℕ) (q : Option AsyncQueue) (s : Store)
      → d ≢ 0
      → held q ≡ some xs
      → let (q', s') = os_async_queue_push m t q d s in
        (os_async_queue_pop_resume m q' u s').0 ≡ head_or d xs
  push-first t d u xs q s n h =
      let (q', s') = os_async_queue_push m t q d s in
      (pop-held m u q' s' (xs ++ pushed_by (pushes t d)) (push-held m t d q s xs h)).0
      ∙ head_or-pushed t d xs n

  push-released :
      (t d w : ℕ) (ws : List ℕ) (q : AsyncQueue) (s : Store)
      → d ≢ 0
      → q.waiting ≡ w ∷ ws
      → let (q', s') = os_async_queue_push m t (some q) d s in
        (length (woken_of q') ≡ length q.woken + 1) × (length (waiting_of q') ≡ length ws)
  unfolding os_async_queue_push waiting_of woken_of
  push-released t d w ws q s n e =
      let c : (d == 0) ≡ false = ground (arith, n) in
      let (one, rest) = signal_first t w ws in
      rw (c, e) (length-append q.woken _ ∙ ap (λ k. length q.woken + k) one, rest)

  -- A push that finds a thread waiting hands its item on: it releases exactly one of the threads
  -- that wait, and the call that resumes next returns the oldest item of the queue.
  pub push_hands_over :
      (t d w : ℕ) (ws xs : List ℕ) (q : AsyncQueue) (s : Store)
      → d ≢ 0
      → q.waiting ≡ w ∷ ws
      → held (some q) ≡ some xs
      → let (q', s') = os_async_queue_push m t (some q) d s in
        (length (woken_of q') ≡ length q.woken + 1)
        × (length (waiting_of q') ≡ length ws)
        × ((u : ℕ) → (os_async_queue_pop_resume m q' u s').0 ≡ head_or d xs)
  push_hands_over t d w ws xs q s n e h =
      let (woken, waiting) = push-released t d w ws q s n e in
      (woken, waiting, λ u. push-first t d u xs (some q) s n h)
