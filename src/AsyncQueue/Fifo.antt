-- ===== src/AsyncQueue/Fifo.antt =====
-- os_async_queue.c delivers first in, first out: for every schedule of the threads, the items
-- popped and those still queued are the items pushed, in order.
use mathlib.Core.List.{append_assoc, append-nil}
use multi_task_app.Prelude.{
  ℕ, ◌+◌, ◌≡◌, ◌≢◌, refl, ap, ◌∙◌, ◌==◌, if◌then◌else◌, Bool-cases, inl, inr, Option, none, some,
  List, [], ◌∷◌, ◌++◌, head_or, drop_first, occurrences, arith,
}
use multi_task_app.Alloc.{Allocator}
use multi_task_app.Queue.Ops.{push_tail, pop_head, contents?, call, spec_call}
use multi_task_app.Queue.Refine.{call-refines_of}
use multi_task_app.Queue.Memory.{non_null}
use multi_task_app.AsyncQueue.{
  AsyncQueue, os_async_queue_push, os_async_queue_pop_wait, os_async_queue_pop_resume,
}
use multi_task_app.AsyncQueue.System.{
  Event, pushes, calls, wakes, resumes, Sys, waiting_of, woken_of, wake, step, run,
}

-- What a queue holds, first to last.
abbrev pub held : Option AsyncQueue → Option (List ℕ)
held none = none
held (some q) = contents? q.queue

non_null-append : (xs ys : List ℕ) → non_null (xs ++ ys) ≡ non_null xs ++ non_null ys
non_null-append [] ys = refl
non_null-append (x ∷ xs) ys = ground (arith, non_null-append xs ys)

-- No item is NULL.
abbrev pub AllNonNull : List ℕ → Type 0
AllNonNull [] = Unit {0}
AllNonNull (x ∷ xs) = (x ≢ 0) × AllNonNull xs

pub AllNonNull-append : (xs ys : List ℕ) → AllNonNull xs → AllNonNull ys → AllNonNull (xs ++ ys)
AllNonNull-append [] ys h k = k
AllNonNull-append (x ∷ xs) ys h k = (h.0, AllNonNull-append xs ys h.1 k)

pub AllNonNull-drop_first : (xs : List ℕ) → AllNonNull xs → AllNonNull (drop_first xs)
AllNonNull-drop_first [] h = tt
AllNonNull-drop_first (x ∷ xs) h = h.1

-- A pop's result, NULL left out, and the list after it make up the list before it.
head_or-drop_first :
    (xs : List ℕ) → AllNonNull xs → non_null (head_or 0 xs ∷ []) ++ drop_first xs ≡ xs
head_or-drop_first [] h = refl
head_or-drop_first (x ∷ xs) h = ground (arith, h.0)

-- The items that an event pushes: os_async_queue_push refuses NULL.
abbrev pub pushed_by : Event → List ℕ
pushed_by (pushes t d) = non_null (d ∷ [])
pushed_by (calls t) = []
pushed_by (wakes t) = []
pushed_by (resumes t) = []

abbrev pub pushed : List Event → List ℕ
pushed [] = []
pushed (e ∷ es) = pushed_by e ++ pushed es

pub pushed_by-AllNonNull : (t d : ℕ) → AllNonNull (pushed_by (pushes t d))
pushed_by-AllNonNull t d = elim (Bool-cases (d == 0)) [
  | inl e ↦ rw e tt
  | inr e ↦ rw e ((λ z. ground (arith, e, z)), tt)
]

-- A result joins the log as its item leaves the queue.
pub order_kept :
    (sent log xs : List ℕ) (r : ℕ)
    → AllNonNull xs
    → r ≡ head_or 0 xs
    → sent ≡ non_null log ++ xs
    → sent ++ [] ≡ non_null (log ++ r ∷ []) ++ drop_first xs
order_kept sent log xs r h e order =
    rw (append-nil, e, non_null-append, append_assoc, head_or-drop_first xs h) order

pub wake-held : (t : ℕ) (q : Option AsyncQueue) → held (wake t q) ≡ held q
unfolding wake
wake-held t none = refl
wake-held t (some q) = refl

pub pop_wait-held : (t : ℕ) (q : Option AsyncQueue) → held (os_async_queue_pop_wait q t) ≡ held q
unfolding os_async_queue_pop_wait
pop_wait-held t none = refl
pop_wait-held t (some q) = refl

module _ (m : Allocator) where
  open m use {Store}

  pub push-held :
      (t d : ℕ) (q : Option AsyncQueue) (s : Store) (xs : List ℕ)
      → held q ≡ some xs
      → held (os_async_queue_push m t q d s).0 ≡ some (xs ++ pushed_by (pushes t d))
  unfolding os_async_queue_push
  push-held t d none s xs h = cc
  push-held t d (some q) s xs h = elim (Bool-cases (d == 0)) [
    | inl e ↦ rw (e, append-nil) h
    | inr e ↦ rw e (unfold call spec_call in (call-refines_of m (push_tail d) q.queue xs s h).1)
  ]

  pub pop-held :
      (t : ℕ) (q : Option AsyncQueue) (s : Store) (xs : List ℕ)
      → held q ≡ some xs
      → ((os_async_queue_pop_resume m q t s).0 ≡ head_or 0 xs)
        × (held (os_async_queue_pop_resume m q t s).1 ≡ some (drop_first xs))
  unfolding os_async_queue_pop_resume call spec_call
  pop-held t none s xs h = cc
  pop-held t (some q) s xs h = call-refines_of m pop_head q.queue xs s h

  -- The queue holds `xs`, and these with the items popped are the items sent.
  record IsFifo (sent : List ℕ) (s : Sys Store) (xs : List ℕ) : Type 0 where
    holds : held s.aq ≡ some xs
    order : sent ≡ non_null s.log ++ xs
    nonnull : AllNonNull xs

  -- What the queue holds after an event.
  after : Event → Sys Store → List ℕ → List ℕ
  after (pushes t d) s xs = xs ++ pushed_by (pushes t d)
  after (calls t) s xs = xs
  after (wakes t) s xs = xs
  after (resumes t) s xs = if occurrences t (woken_of s.aq) == 0 then xs else drop_first xs

  unchanged :
      (sent xs : List ℕ) (s t : Sys Store)
      → held t.aq ≡ held s.aq
      → t.log ≡ s.log
      → IsFifo sent s xs
      → IsFifo (sent ++ []) t xs
  unchanged sent xs s t h l v = record {
    holds = h ∙ v.holds;
    order = rw (append-nil, l) v.order;
    nonnull = v.nonnull;
  }

  step-IsFifo :
      (e : Event) (sent : List ℕ) (s : Sys Store) (xs : List ℕ)
      → IsFifo sent s xs
      → IsFifo (sent ++ pushed_by e) (step m e s) (after e s xs)
  unfolding step after
  step-IsFifo (pushes t d) sent s xs v = record {
    holds = push-held t d s.aq s.store xs v.holds;
    order =
        ap (λ l. l ++ pushed_by (pushes t d)) v.order
        ∙ append_assoc (non_null s.log) xs (pushed_by (pushes t d));
    nonnull = AllNonNull-append xs _ v.nonnull (pushed_by-AllNonNull t d);
  }
  step-IsFifo (calls t) sent s xs v =
      elim (Bool-cases (occurrences t (waiting_of s.aq) + occurrences t (woken_of s.aq) == 0)) [
        | inl e ↦ rw e (unchanged sent xs s _ (pop_wait-held t s.aq) refl v)
        | inr e ↦ rw e (unchanged sent xs s s refl refl v)
      ]
  step-IsFifo (wakes t) sent s xs v = elim (Bool-cases (occurrences t (waiting_of s.aq) == 0)) [
    | inl e ↦ rw e (unchanged sent xs s s refl refl v)
    | inr e ↦ rw e (unchanged sent xs s _ (wake-held t s.aq) refl v)
  ]
  step-IsFifo (resumes t) sent s xs v =
      let (result, rest) = pop-held t s.aq s.store xs v.holds in
      elim (Bool-cases (occurrences t (woken_of s.aq) == 0)) [
        | inl e ↦ rw e (unchanged sent xs s s refl refl v)
        | inr e ↦ rw e (record {
          holds = rest;
          order = order_kept sent s.log xs _ v.nonnull result v.order;
          nonnull = AllNonNull-drop_first xs v.nonnull;
        })
      ]

  run-IsFifo :
      (es : List Event) (sent : List ℕ) (s : Sys Store) (xs : List ℕ)
      → IsFifo sent s xs
      → (ys : List ℕ) × IsFifo (sent ++ pushed es) (run m es s) ys
  unfolding run
  run-IsFifo [] sent s xs v = (xs, unchanged sent xs s s refl refl v)
  run-IsFifo (e ∷ es) sent s xs v =
      let (ys, w) =
        run-IsFifo es (sent ++ pushed_by e) (step m e s) (after e s xs)
          (step-IsFifo e sent s xs v) in
      (ys, rw (← append_assoc) w)

  -- Under every schedule, starting from an empty queue, the items pushed are the results that
  -- were not NULL followed by what the queue still holds: nothing is lost, made up, delivered
  -- twice or overtaken.
  pub delivers_in_order :
      (es : List Event) (q : Option AsyncQueue) (store : Store)
      → held q ≡ some []
      → let end = run m es (record { aq = q; store = store; log = [] }) in
        (ys : List ℕ) × (held end.aq ≡ some ys) × (pushed es ≡ non_null end.log ++ ys)
  delivers_in_order es q store h =
      let (ys, v) =
        run-IsFifo es [] (record { aq = q; store = store; log = [] }) []
          (record { holds = h; order = refl; nonnull = tt }) in
      (ys, v.holds, v.order)
