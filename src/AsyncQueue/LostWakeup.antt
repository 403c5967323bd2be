-- ===== src/AsyncQueue/LostWakeup.antt =====
-- os_async_queue_pop of os_async_queue.c waits on the condition variable without looking at the
-- queue first, so a signal given before the wait is lost.
use mathlib.Core.Path.{subst}
use multi_task_app.Prelude.{
  ℕ, ◌+◌, ◌≡◌, refl, sym, ap, ◌∙◌, ◌==◌, Bool-cases, inl, inr, Option, none, some, List, [], ◌∷◌,
  ◌++◌, occurrences, arith,
}
use multi_task_app.Alloc.{Allocator}
use multi_task_app.AsyncQueue.{AsyncQueue, os_async_queue_push}
use multi_task_app.AsyncQueue.System.{
  Event, pushes, calls, wakes, resumes, Sys, waiting_of, woken_of, step, run,
}
use multi_task_app.AsyncQueue.Fifo.{held, push-held, pop_wait-held, pushed_by}
use multi_task_app.AsyncQueue.Signal.{AllQuiet, pop_wait-woken}

module _ (m : Allocator) where
  open m use {Store}

  calls-stuck :
      (t : ℕ) (s : Sys Store)
      → woken_of s.aq ≡ []
      → (held (step m (calls t) s).aq ≡ held s.aq)
        × ((step m (calls t) s).log ≡ s.log)
        × (woken_of (step m (calls t) s).aq ≡ [])
  unfolding step
  calls-stuck t s h =
      elim (Bool-cases (occurrences t (waiting_of s.aq) + occurrences t (woken_of s.aq) == 0)) [
        | inl e ↦ rw e (pop_wait-held t s.aq, refl, pop_wait-woken t s.aq ∙ h)
        | inr e ↦ rw e (refl, refl, h)
      ]

  resumes-stuck : (t : ℕ) (s : Sys Store) → woken_of s.aq ≡ [] → step m (resumes t) s ≡ s
  unfolding step
  resumes-stuck t s h = elim (Bool-cases (occurrences t (woken_of s.aq) == 0)) [
    | inl e ↦ rw e refl
    | inr e ↦ absurd (ground (arith, e, ap (occurrences t) h))
  ]

  -- While no thread is released, calls of os_async_queue_pop deliver nothing.
  quiet-stuck :
      (es : List Event) (s : Sys Store)
      → woken_of s.aq ≡ []
      → AllQuiet es
      → (held (run m es s).aq ≡ held s.aq)
        × ((run m es s).log ≡ s.log)
        × (woken_of (run m es s).aq ≡ [])
  unfolding run
  quiet-stuck [] s h q = (refl, refl, h)
  quiet-stuck (pushes t d ∷ es) s h q = absurd q
  quiet-stuck (wakes t ∷ es) s h q = absurd q
  quiet-stuck (calls t ∷ es) s h q =
      let (a, b, c) = calls-stuck t s h in
      let (a', b', c') = quiet-stuck es (step m (calls t) s) c q in (a' ∙ a, b' ∙ b, c')
  quiet-stuck (resumes t ∷ es) s h q =
      subst
        (λ x.
          (held (run m es x).aq ≡ held s.aq)
          × ((run m es x).log ≡ s.log)
          × (woken_of (run m es x).aq ≡ []))
        (sym (resumes-stuck t s h)) (quiet-stuck es s h q)

  push-unheard :
      (t d : ℕ) (q : Option AsyncQueue) (s : Store)
      → waiting_of q ≡ []
      → woken_of q ≡ []
      → woken_of (os_async_queue_push m t q d s).0 ≡ []
  unfolding os_async_queue_push waiting_of woken_of
  push-unheard t d none s w h = refl
  push-unheard t d (some q) s w h = elim (Bool-cases (d == 0)) [
    | inl e ↦ rw e h
    | inr e ↦ rw (e, w, h) refl
  ]

  -- An item pushed while no thread waits is not delivered by the calls that come after it: for
  -- every sequence of such calls, with no further push and no spurious wake, the item stays in
  -- the queue behind those before it, no call returns, and no thread is released.
  pub lost_wakeup :
      (t d : ℕ) (es : List Event) (s : Sys Store) (xs : List ℕ)
      → held s.aq ≡ some xs
      → waiting_of s.aq ≡ []
      → woken_of s.aq ≡ []
      → AllQuiet es
      → let end = run m (pushes t d ∷ es) s in
        (held end.aq ≡ some (xs ++ pushed_by (pushes t d)))
        × (end.log ≡ s.log)
        × (woken_of end.aq ≡ [])
  unfolding run step
  lost_wakeup t d es s xs h w k q =
      let (a, b, c) =
        quiet-stuck es (step m (pushes t d) s) (push-unheard t d s.aq s.store w k) q in
      (a ∙ push-held m t d s.aq s.store xs h, b, c)
