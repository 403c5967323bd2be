-- ===== src/Threadpool/Backed.antt =====
-- The addresses of the tasks in a pool's queue, and the blocks of the queue, in os_threadpool.c.
use multi_task_app.Prelude.{
  ℕ, ◌+◌, ◌≤◌, ◌≡◌, ◌≢◌, ◌⊎◌, refl, ap, ◌==◌, bit, Bool, false, Bool-cases, inl, inr, map, Option,
  none, some, List, [], ◌∷◌, ◌++◌, occurrences, arith,
}
use multi_task_app.Alloc.{Allocator}
use multi_task_app.Queue.Memory.{owned, IsBacked, call-IsBacked, call-blocks}
use multi_task_app.Queue.Ops.{push_tail, pop_head, call}
use multi_task_app.AsyncQueue.{AsyncQueue, os_async_queue_push, os_async_queue_pop_resume}
use multi_task_app.Msg.{update}
use multi_task_app.Threadpool.{PoolTask}
use multi_task_app.Threadpool.System.{Event, adds, waits, wakes, takes, calls, frees, Hands, part}

-- The blocks of the list inside a queue.
abbrev pub owned_by : Option AsyncQueue → List ℕ
owned_by none = []
owned_by (some q) = owned q.queue

-- Every task has a function.
abbrev pub AllCallable : List PoolTask → Type 0
AllCallable [] = Unit {0}
AllCallable (t ∷ ts) = (t.function ≢ 0) × AllCallable ts

pub AllCallable-append :
    (ts us : List PoolTask) → AllCallable ts → AllCallable us → AllCallable (ts ++ us)
AllCallable-append [] us h k = k
AllCallable-append (t ∷ ts) us h k = (h.0, AllCallable-append ts us h.1 k)

abbrev pub AddsCallable : List Event → Type 0
AddsCallable [] = Unit {0}
AddsCallable (adds t task ∷ es) = (task.function ≢ 0) × AddsCallable es
AddsCallable (waits u ∷ es) = AddsCallable es
AddsCallable (wakes u ∷ es) = AddsCallable es
AddsCallable (takes u ∷ es) = AddsCallable es
AddsCallable (calls u ∷ es) = AddsCallable es
AddsCallable (frees u ∷ es) = AddsCallable es

pub map-append : {A : Type 0} (f : ℕ → A) (xs ys : List ℕ) → map f (xs ++ ys) ≡ map f xs ++ map f ys
map-append f [] ys = refl
map-append f (x ∷ xs) ys = ap (λ l. f x ∷ l) (map-append f xs ys)

-- A cell that is not listed is written.
pub map-update :
    {A : Type 0} (f : ℕ → A) (p : ℕ) (task : A) (xs : List ℕ)
    → occurrences p xs ≡ 0
    → map (update f p task) xs ≡ map f xs
unfolding update
map-update f p task [] h = refl
map-update f p task (x ∷ xs) h =
    let other : (x == p) ≡ false = ground (arith, h) in
    rw other (ap (λ l. f x ∷ l) (map-update f p task xs (omega (arith, h))))

-- How many entries of a list pass a test.
abbrev pub count : {A : Type 0} → (A → Bool) → List A → ℕ
count f [] = 0
count f (t ∷ ts) = bit (f t) + count f ts

pub count-append :
    {A : Type 0} (f : A → Bool) (ts us : List A) → count f (ts ++ us) ≡ count f ts + count f us
count-append f [] us = omega arith
count-append f (t ∷ ts) us = omega (arith, count-append f ts us)

-- A sum over addresses.
abbrev pub sum : (ℕ → ℕ) → List ℕ → ℕ
sum g [] = 0
sum g (p ∷ ps) = g p + sum g ps

pub count-map :
    {A : Type 0} (f : A → Bool) (g : ℕ → A) (ps : List ℕ)
    → count f (map g ps) ≡ sum (λ p. bit (f (g p))) ps
count-map f g [] = refl
count-map f g (p ∷ ps) = omega (arith, count-map f g ps)

pub occurrences-map :
    (a : ℕ) (g : ℕ → ℕ) (ps : List ℕ) → occurrences a (map g ps) ≡ sum (λ p. bit (g p == a)) ps
occurrences-map a g [] = refl
occurrences-map a g (p ∷ ps) = omega (arith, occurrences-map a g ps)

-- The addresses in the workers' hands.
abbrev pub in_hands : Hands → List ℕ
in_hands = map (λ h. h.1)

-- What a worker's entry takes out of the hands.
pub part_cases :
    (u : ℕ) (ws : Hands)
    → ((part u ws).0 ≡ none)
      ⊎ ((p : ℕ) × (rest : Hands) × (part u ws ≡ (some p, rest))
          × ((a : ℕ) → occurrences a (in_hands ws) ≡ bit (p == a) + occurrences a (in_hands rest))
          × ((g : ℕ → ℕ) → sum g (in_hands ws) ≡ g p + sum g (in_hands rest)))
unfolding part
part_cases u [] = inl refl
part_cases u ((v, p) ∷ ws) = elim (Bool-cases (u == v)) [
  | inl e ↦ rw e (inr (p, ws, refl, (λ a. refl), (λ g. refl)))
  | inr e ↦ elim (part_cases u ws) [
    | inl h ↦ rw e (inl h)
    | inr (q, rest, h, addresses, sums) ↦
        rw (e, h)
          (inr
            (q, (v, p) ∷ rest, refl, λ a. omega (arith, addresses a), λ g. omega (arith, sums g)))
  ]
]

module _ (m : Allocator) where
  open m use {Store, blocks}

  abbrev pub Backed : Option AsyncQueue → Store → Type 0
  Backed none s = Unit {0}
  Backed (some q) s = IsBacked m q.queue s

  pub push-Backed :
      (t d : ℕ) (q : Option AsyncQueue) (s : Store)
      → d ≢ 0
      → Backed q s
      → let (q', s') = os_async_queue_push m t q d s in
        Backed q' s'
        × ((a : ℕ)
            → blocks s' a + occurrences a (owned_by q) ≡ blocks s a + occurrences a (owned_by q'))
  unfolding os_async_queue_push
  push-Backed t d none s h v = (tt, λ a. refl)
  push-Backed t d (some q) s h v =
      let given : (d == 0) ≡ false = ground (arith, h) in
      rw given (
        unfold call in
        (call-IsBacked m (push_tail d) q.queue s v, λ a. call-blocks m (push_tail d) q.queue s a v))

  pub pop-Backed :
      (u : ℕ) (q : Option AsyncQueue) (s : Store)
      → Backed q s
      → let (r, q', s') = os_async_queue_pop_resume m q u s in
        Backed q' s'
        × ((a : ℕ)
            → blocks s' a + occurrences a (owned_by q) ≡ blocks s a + occurrences a (owned_by q'))
  unfolding os_async_queue_pop_resume call
  pop-Backed u none s v = (tt, λ a. refl)
  pop-Backed u (some q) s v =
      (call-IsBacked m pop_head q.queue s v, λ a. call-blocks m pop_head q.queue s a v)

  pub Backed-live :
      (q : Option AsyncQueue) (s : Store)
      → Backed q s
      → (a : ℕ) → occurrences a (owned_by q) ≤ blocks s a
  Backed-live none s v a = omega arith
  Backed-live (some q) s v a = v.live a
