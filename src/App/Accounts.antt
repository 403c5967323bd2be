-- ===== src/App/Accounts.antt =====
-- The queues of the tasks, and sums over them.
use multi_task_app.Prelude.{
  ℕ, ◌+◌, ◌≤◌, ◌≡◌, ◌≢◌, refl, ◌∙◌, ◌==◌, Bool, Bool-cases, inl, inr, List, [], ◌∷◌, String,
  occurrences, arith,
}
use multi_task_app.Task.{Task, find, queue_of, os_task_aq_get, os_task_aq_self}

-- The field `q` of each task.
abbrev pub queues_of : List Task → List ℕ
queues_of [] = []
queues_of (t ∷ ts) = t.q ∷ queues_of ts

-- No two tasks have the same queue.
abbrev pub Distinct : List Task → Type 0
Distinct ts = (q : ℕ) → q ≢ 0 → occurrences q (queues_of ts) ≤ 1

abbrev pub total : (ℕ → ℕ) → List ℕ → ℕ
total f [] = 0
total f (q ∷ qs) = f q + total f qs

stands_first : (a q : ℕ) (qs : List ℕ) → a ≡ q → occurrences a (q ∷ qs) ≢ 0
stands_first a q qs e h = ground (arith, e, h)

stands_later : (a b q : ℕ) (qs : List ℕ) → a ≡ b → occurrences b qs ≢ 0 → occurrences a (q ∷ qs) ≢ 0
stands_later a b q qs e h z =
    let same : occurrences a qs ≡ occurrences b qs = rw e refl in h (omega (arith, z, same))

found_queue :
    (p : Task → Bool) (ts : List Task)
    → queue_of (find p ts) ≢ 0
    → occurrences (queue_of (find p ts)) (queues_of ts) ≢ 0
unfolding find
found_queue p [] h = absurd (h refl)
found_queue p (t ∷ ts) h = elim (Bool-cases (p t)) [
  | inl e ↦
      let here : queue_of (find p (t ∷ ts)) ≡ t.q = rw e refl in
      stands_first _ t.q (queues_of ts) here
  | inr e ↦
      let further : queue_of (find p (t ∷ ts)) ≡ queue_of (find p ts) = rw e refl in
      stands_later _ _ t.q (queues_of ts) further (found_queue p ts (λ z. h (further ∙ z)))
]

-- A queue that a search gives is one of the tasks', and stands once among them.
once :
    (q : ℕ) (ts : List Task)
    → Distinct ts
    → q ≢ 0
    → occurrences q (queues_of ts) ≢ 0
    → occurrences q (queues_of ts) ≡ 1
once q ts d h k = omega (arith, d q h, k)

pub aq_get_once :
    (dst : String) (ts : List Task)
    → Distinct ts
    → os_task_aq_get dst ts ≢ 0
    → occurrences (os_task_aq_get dst ts) (queues_of ts) ≡ 1
unfolding os_task_aq_get
aq_get_once dst ts d h = once _ ts d h (found_queue _ ts h)

pub aq_self_once :
    (u : ℕ) (ts : List Task)
    → Distinct ts
    → os_task_aq_self u ts ≢ 0
    → occurrences (os_task_aq_self u ts) (queues_of ts) ≡ 1
unfolding os_task_aq_self
aq_self_once u ts d h = once _ ts d h (found_queue _ ts h)

total-same :
    (f g : ℕ → ℕ) (p : ℕ) (qs : List ℕ)
    → ((x : ℕ) → x ≢ p → f x ≡ g x)
    → occurrences p qs ≡ 0
    → total f qs ≡ total g qs
total-same f g p [] same h = refl
total-same f g p (q ∷ qs) same h =
    let other : q ≢ p = ground (arith, h) in
    omega (arith, same q other, total-same f g p qs same (omega (arith, h)))

-- A change at one of the queues.
pub total-change :
    (f g : ℕ → ℕ) (p : ℕ) (qs : List ℕ)
    → ((x : ℕ) → x ≢ p → f x ≡ g x)
    → occurrences p qs ≡ 1
    → total g qs + f p ≡ total f qs + g p
total-change f g p [] same h = absurd (omega (arith, h))
total-change f g p (q ∷ qs) same h = elim (Bool-cases (q == p)) [
  | inl e ↦
      let here : q ≡ p = ground (arith, e) in
      let none_left : occurrences p qs ≡ 0 = ground (arith, e, h) in
      rw here (omega (arith, total-same f g p qs same none_left))
  | inr e ↦
      let other : q ≢ p = ground (arith, e) in
      let one_left : occurrences p qs ≡ 1 = ground (arith, e, h) in
      omega (arith, same q other, total-change f g p qs same one_left)
]

pub one_of_total : (f : ℕ → ℕ) (p : ℕ) (qs : List ℕ) → occurrences p qs ≢ 0 → f p ≤ total f qs
one_of_total f p [] h = absurd (h refl)
one_of_total f p (q ∷ qs) h = elim (Bool-cases (q == p)) [
  | inl e ↦ let here : q ≡ p = ground (arith, e) in rw here (omega arith)
  | inr e ↦
      let further : occurrences p qs ≢ 0 = λ z. h (ground (arith, e, z)) in
      omega (arith, one_of_total f p qs further)
]
