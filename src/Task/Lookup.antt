-- ===== src/Task/Lookup.antt =====
-- What the searches of os_task.c find.
use multi_task_app.Prelude.{
  ℕ, ◌≡◌, ◌≢◌, ◌⊎◌, refl, inl, inr, ◌==◌, Bool, true, false, Bool-cases, none, some, List, [], ◌∷◌,
  ◌++◌, String, str_eq, str_eq_iff, arith,
}
use multi_task_app.Task.{Task, find, os_task_aq_get, os_task_aq_self, os_task_name_get_from_tid}

-- No task of the list passes the test.
abbrev pub NoneHas : (Task → Bool) → List Task → Type 0
NoneHas p [] = Unit {0}
NoneHas p (t ∷ ts) = (p t ≡ false) × NoneHas p ts

pub find-append :
    (p : Task → Bool) (ts us : List Task) → NoneHas p ts → find p (ts ++ us) ≡ find p us
unfolding find
find-append p [] us h = refl
find-append p (t ∷ ts) us h = rw h.0 (find-append p ts us h.1)

pub find_first :
    (p : Task → Bool) (ts us : List Task) (t : Task)
    → NoneHas p ts
    → p t ≡ true
    → find p (ts ++ t ∷ us) ≡ some t
unfolding find
find_first p ts us t h e = rw (find-append p ts (t ∷ us) h, find) (rw e refl)

pub find-none : (p : Task → Bool) (ts : List Task) → NoneHas p ts → find p ts ≡ none
unfolding find
find-none p [] h = refl
find-none p (t ∷ ts) h = rw h.0 (find-none p ts h.1)

-- A search splits the list at the first task that passes, or no task passes.
pub find_cases :
    (p : Task → Bool) (ts : List Task)
    → ((find p ts ≡ none) × NoneHas p ts)
      ⊎ ((before : List Task) × (t : Task) × (after : List Task) × (find p ts ≡ some t)
          × (ts ≡ before ++ t ∷ after)
          × NoneHas p before
          × (p t ≡ true))
unfolding find
find_cases p [] = inl (refl, tt)
find_cases p (t ∷ ts) = elim (Bool-cases (p t)) [
  | inl e ↦ inr ([], t, ts, rw e refl, refl, tt, e)
  | inr e ↦ elim (find_cases p ts) [
    | inl (missing, all) ↦ inl (rw e missing, (e, all))
    | inr (before, u, after, found, split, all, passes) ↦
        inr (t ∷ before, u, after, rw e found, rw split refl, (e, all), passes)
  ]
]

-- No task of the list has the name.
abbrev pub NoneNamed : String → List Task → Type 0
NoneNamed name [] = Unit {0}
NoneNamed name (t ∷ ts) = (t.name ≢ name) × NoneNamed name ts

abbrev pub NoneOnThread : ℕ → List Task → Type 0
NoneOnThread tid [] = Unit {0}
NoneOnThread tid (t ∷ ts) = (t.tid ≢ tid) × NoneOnThread tid ts

NoneNamed-of :
    (name : String) (ts : List Task) → NoneHas (λ t. str_eq name t.name) ts → NoneNamed name ts
NoneNamed-of name [] h = tt
NoneNamed-of name (t ∷ ts) h =
    ((λ e. ground (arith, str_eq_iff name t.name, e, h.0)), NoneNamed-of name ts h.1)

NoneOnThread-of : (tid : ℕ) (ts : List Task) → NoneHas (λ t. tid == t.tid) ts → NoneOnThread tid ts
NoneOnThread-of tid [] h = tt
NoneOnThread-of tid (t ∷ ts) h = ((λ e. ground (arith, e, h.0)), NoneOnThread-of tid ts h.1)

-- os_task_aq_get gives the field `q` of the first task in the list that has the name, NULL if that
-- task has no queue, and gives NULL if no task has the name.
pub aq_get_first :
    (name : String) (ts : List Task)
    → ((os_task_aq_get name ts ≡ 0) × NoneNamed name ts)
      ⊎ ((before : List Task) × (t : Task) × (after : List Task) × (ts ≡ before ++ t ∷ after)
          × NoneNamed name before
          × (t.name ≡ name)
          × (os_task_aq_get name ts ≡ t.q))
unfolding os_task_aq_get
aq_get_first name ts = elim (find_cases (λ t. str_eq name t.name) ts) [
  | inl (missing, all) ↦ inl (rw missing refl, NoneNamed-of name ts all)
  | inr (before, t, after, found, split, all, passes) ↦ inr (
    before,
    t,
    after,
    split,
    NoneNamed-of name before all,
    ground (arith, str_eq_iff name t.name, passes),
    rw found refl,
  )
]

-- For a thread, os_task_aq_self and os_task_name_get_from_tid speak of the same task, the first in
-- the list that runs on it: one gives its field `q`, the other its name. Both give NULL if no task
-- runs on it.
pub thread_lookups_agree :
    (tid : ℕ) (ts : List Task)
    → ((os_task_aq_self tid ts ≡ 0)
        × (os_task_name_get_from_tid tid ts ≡ none)
        × NoneOnThread tid ts)
      ⊎ ((before : List Task) × (t : Task) × (after : List Task) × (ts ≡ before ++ t ∷ after)
          × NoneOnThread tid before
          × (t.tid ≡ tid)
          × (os_task_aq_self tid ts ≡ t.q)
          × (os_task_name_get_from_tid tid ts ≡ some t.name))
unfolding os_task_aq_self os_task_name_get_from_tid
thread_lookups_agree tid ts = elim (find_cases (λ t. tid == t.tid) ts) [
  | inl (missing, all) ↦ inl (rw missing refl, rw missing refl, NoneOnThread-of tid ts all)
  | inr (before, t, after, found, split, all, passes) ↦ inr (
    before,
    t,
    after,
    split,
    NoneOnThread-of tid before all,
    ground (arith, passes),
    rw found refl,
    rw found refl,
  )
]
