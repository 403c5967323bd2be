-- ===== src/App/Runs.antt =====
-- What a schedule does to the state of the tasks of init/main.c.
use multi_task_app.Prelude.{
  ℕ, ◌+◌, ◌*◌, ◌≡◌, refl, sym, ap, ◌==◌, Bool-cases, inl, inr, Option, none, some, List, [], ◌∷◌,
  occurrences, arith, String,
}
use multi_task_app.Alloc.{Fresh, Allocator, malloc_check, blocks-free-malloc}
use multi_task_app.Task.{Task, os_task_aq_get, os_task_aq_self}
use multi_task_app.AsyncQueue.{os_async_queue_pop_wait}
use multi_task_app.AsyncQueue.System.{woken_of, wake}
use multi_task_app.AsyncQueue.Fifo.{wake-held, pop_wait-held}
use multi_task_app.Msg.{Net, os_msg_recv_wait, os_msg_recv_resume}
use multi_task_app.App.{consumed, task_routine_no1, task_routine_no2, task_routine_normal}
use multi_task_app.App.Scheduled.{
  Line, Event, produces, waits, wakes, resumes, finishes, works_no1, works_no2, works_normal,
  System, received, ended, step, run,
}
use multi_task_app.App.Accounts.{Distinct}
use multi_task_app.App.Steps.{
  Valid, requeued, worked, produced, receives, finished, waiting-owned, woken-owned,
}

module _ (m : Allocator) (ts : List Task) where
  open m use {Store, blocks, malloc}

  -- The blocks at `a` in use elsewhere: `base a` from the start, and those that were kept.
  abbrev pub elsewhere : (ℕ → ℕ) → System Store → ℕ → ℕ
  elsewhere base s a = base a + occurrences a s.kept

  recharged :
      (e e' : ℕ → ℕ) (s : System Store) → ((a : ℕ) → e a ≡ e' a) → Valid m ts e s → Valid m ts e' s
  recharged e e' s h (hs, v) =
      (hs, record { tasks = v.tasks; queues = v.queues; live = λ a. omega (arith, h a, v.live a) })

  received-kept : (q : ℕ) (r : ℕ × Net Store) (s : System Store) → (received m q r s).kept ≡ s.kept
  unfolding received
  received-kept q r s = elim (Bool-cases (r.0 == 0)) [ inl z ↦ rw z refl | inr z ↦ rw z refl ]

  ended-kept :
      (q : ℕ) (r : Option (Line × Net Store)) (s : System Store) → (ended m q r s).kept ≡ s.kept
  unfolding ended
  ended-kept q none s = refl
  ended-kept q (some (line, n)) s = refl

  produces-kept :
      (t : ℕ) (dst : String) (text : List ℕ) (s : System Store)
      → (step m (produces t dst text) s).kept ≡ s.kept
  unfolding step
  produces-kept t dst text s = elim (Bool-cases (os_task_aq_get dst s.net.tasks == 0)) [
    | inl z ↦ rw z refl
    | inr z ↦ rw z refl
  ]

  pub step-Valid :
      (ev : Event) (base : ℕ → ℕ) (s : System Store)
      → Fresh m
      → Distinct ts
      → Valid m ts (elsewhere base s) s
      → Valid m ts (elsewhere base (step m ev s)) (step m ev s)
  unfolding step os_msg_recv_wait task_routine_no1 task_routine_no2 task_routine_normal
  step-Valid (produces t dst text) base s fresh distinct v =
      recharged (elsewhere base s) (elsewhere base (step m (produces t dst text) s)) _
        (λ a. ap (λ k. base a + occurrences a k) (sym (produces-kept t dst text s)))
        (produced m ts (elsewhere base s) t dst text s fresh distinct v)
  step-Valid (waits u) base s fresh distinct v =
      let q = os_task_aq_self u s.net.tasks in
      elim (Bool-cases (q == 0)) [
        | inl z ↦ rw z v
        | inr z ↦ rw z (
            requeued m ts (elsewhere base s) q (os_async_queue_pop_wait (s.net.queues q) u) s
              (pop_wait-held u (s.net.queues q)) (waiting-owned u (s.net.queues q)) v)
      ]
  step-Valid (wakes u) base s fresh distinct v =
      let q = os_task_aq_self u s.net.tasks in
      elim (Bool-cases (q == 0)) [
        | inl z ↦ rw z v
        | inr z ↦ rw z (
            requeued m ts (elsewhere base s) q (wake u (s.net.queues q)) s
              (wake-held u (s.net.queues q)) (woken-owned u (s.net.queues q)) v)
      ]
  step-Valid (resumes u) base s fresh distinct v =
      let q = os_task_aq_self u s.net.tasks in
      let r = os_msg_recv_resume m u s.net in
      elim (Bool-cases (q == 0)) [
        | inl z ↦ rw z v
        | inr z ↦ elim (Bool-cases (occurrences u (woken_of (s.net.queues q)) == 0)) [
          | inl f ↦ rw (z, f) v
          | inr f ↦ elim (Bool-cases (s.hand q == 0)) [
            | inl g ↦
                let empty : s.hand q ≡ 0 = ground (arith, g) in
                rw (z, f, g)
                  (recharged (elsewhere base s) (elsewhere base (received m q r s))
                    (received m q r s)
                    (λ a. ap (λ k. base a + occurrences a k) (sym (received-kept q r s)))
                    (receives m ts (elsewhere base s) u q s distinct (λ w. ground (arith, z, w))
                      refl empty v))
            | inr g ↦ rw (z, f, g) v
          ]
        ]
      ]
  step-Valid (finishes u) base s fresh distinct v =
      let q = os_task_aq_self u s.net.tasks in
      let r = consumed m (s.hand q, s.net) in
      elim (Bool-cases (q == 0)) [
        | inl z ↦ rw z v
        | inr z ↦ rw z (
            recharged (elsewhere base s) (elsewhere base (ended m q r s)) (ended m q r s)
              (λ a. ap (λ k. base a + occurrences a k) (sym (ended-kept q r s)))
              (finished m ts (elsewhere base s) u q s distinct (λ w. ground (arith, z, w)) refl v))
      ]
  step-Valid works_no1 base s fresh distinct v =
      worked m ts (elsewhere base s) _ s _ _ (λ a. omega (arith, m.malloc_blocks 16 s.net.store a))
        v
  step-Valid works_no2 base s fresh distinct v =
      worked m ts (elsewhere base s) _ s _ _ (λ a. omega (arith, m.malloc_blocks 512 s.net.store a))
        v
  step-Valid (works_normal cnt) base s fresh distinct v =
      let size = (cnt + 1) * 2048 in
      let (p, store) = malloc size s.net.store in
      rw (malloc_check m size s.net.store) (
        worked m ts (elsewhere base s) (elsewhere base s) s (m.free p store) s.kept
          (λ a. omega (arith, blocks-free-malloc m size s.net.store a)) v)

  pub run-Valid :
      (evs : List Event) (base : ℕ → ℕ) (s : System Store)
      → Fresh m
      → Distinct ts
      → Valid m ts (elsewhere base s) s
      → Valid m ts (elsewhere base (run m evs s)) (run m evs s)
  unfolding run
  run-Valid [] base s fresh distinct v = v
  run-Valid (ev ∷ evs) base s fresh distinct v =
      run-Valid evs base (step m ev s) fresh distinct (step-Valid ev base s fresh distinct v)
