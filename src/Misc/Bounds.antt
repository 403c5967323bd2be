-- ===== src/Misc/Bounds.antt =====
-- child_pid_get of os_misc.c stays inside its array, and its loop ends, whatever the line holds.
use multi_task_app.Prelude.{
  ℕ, zero, suc, ◌+◌, ◌-◌, ◌*◌, ◌≤◌, ◌<◌, ◌≡◌, ◌≢◌, ◌⊎◌, inl, inr, refl, ap, sym, ◌∙◌, ◌==◌, bit,
  ◌||◌, Bool-cases, Option-cases, length, drop, length-drop, Option, none, some, List, [], ◌∷◌,
  arith,
}
use multi_task_app.Alloc.{Allocator}
use multi_task_app.Misc.{
  Pids, space, count_spaces, token, strtok, scan_lu, read_pids, consed, behind, fgets, newline,
  child_pid_get, child_pid_serialize2string, buf_size,
}

-- The places where a token of the string ended or may end: its spaces, and the zeros that strtok
-- has put there.
abbrev pub ends : List ℕ → ℕ
ends [] = 0
ends (c ∷ s) = bit (c == 0 || c == space) + ends s

-- What is left of the string after a round that found a token of `n` bytes has an end less, unless
-- nothing is left.
abbrev pub Spent : List ℕ → ℕ → List ℕ → Type 0
Spent str n str' = (ends (drop n str') + 1 ≤ ends str) ⊎ (drop n str' ≡ [])

ends-drop : (n : ℕ) (s : List ℕ) → ends (drop n s) ≤ ends s
ends-drop zero s = omega arith
ends-drop (suc n) [] = omega arith
ends-drop (suc n) (c ∷ s) = omega (arith, ends-drop n s)

token-Spent :
    (str : List ℕ)
    → let (n, str') = token str in
      Spent str (suc n) str' × (ends str' ≡ ends str) × (length str' ≡ length str)
unfolding token
token-Spent [] = (inr refl, refl, refl)
token-Spent (c ∷ s) = elim (Bool-cases (c == 0)) [
  | inl z ↦ (inl (ground (arith, z)), ground (arith, z), ground (arith, z))
  | inr nz ↦ elim (Bool-cases (c == space)) [
    | inl e ↦ (inl (ground (arith, nz, e)), ground (arith, nz, e), ground (arith, nz, e))
    | inr ne ↦
        let (spent, same, long) = token-Spent s in
        rw (nz, ne)
          (
            elim spent [ inl less ↦ inl (omega (arith, less)) | inr none_left ↦ inr none_left ],
            ground (arith, same, nz, ne),
            omega (arith, long),
          )
  ]
]

behind-some :
    (c n : ℕ) (o : Option (ℕ × List ℕ)) (str : List ℕ)
    → behind c o ≡ some (n, str)
    → (rest : List ℕ) × (o ≡ some (n, rest)) × (str ≡ c ∷ rest)
unfolding behind
behind-some c n none str e = cc
behind-some c n (some (k, rest)) str e = (rest, ground (arith, e), ground (arith, e))

-- What a round of the loop does to the string: the ends are as many as before in all of it, and
-- there is one less behind what the round steps over.
strtok-Spent :
    (str str' : List ℕ) (n : ℕ)
    → strtok str ≡ some (n, str')
    → Spent str (suc n) str'
      × (ends str' ≡ ends str)
      × (length str' ≡ length str)
      × (0 < length str)
unfolding strtok
strtok-Spent [] str' n e = cc
strtok-Spent (c ∷ s) str' n e = elim (Bool-cases (c == 0)) [
  | inl z ↦ absurd (ground (arith, e, z))
  | inr nz ↦ elim (Bool-cases (c == space)) [
    | inl sp ↦
        let (rest, found, whole) = behind-some c n (strtok s) str' (ground (arith, e, nz, sp)) in
        let (spent, same, long, more) = strtok-Spent s rest n found in
        rw whole (
          inl (ground (arith, nz, sp, same, ends-drop n rest)),
          omega (arith, same),
          omega (arith, long),
          omega arith,
        )
    | inr ne ↦
        let first : token (c ∷ s) ≡ (n, str') = ground (arith, e, nz, ne) in
        let (spent, same, long) = rw first at (token-Spent (c ∷ s)) in
        (spent, same, long, omega arith)
  ]
]

pub read_pids_last :
    (rounds : ℕ) (str : List ℕ) → strtok str ≡ none → read_pids (suc rounds) str ≡ some []
unfolding read_pids
read_pids_last rounds str e = rw (e, read_pids) refl

pub read_pids_more :
    (rounds n : ℕ) (str str' : List ℕ)
    → strtok str ≡ some (n, str')
    → read_pids (suc rounds) str ≡ consed (scan_lu str') (read_pids rounds (drop (suc n) str'))
unfolding read_pids
read_pids_more rounds n str str' e = rw (e, read_pids) refl

consed_inv :
    (v : Option ℕ) (o : Option (List (Option ℕ))) (vs : List (Option ℕ))
    → consed v o ≡ some vs
    → (ws : List (Option ℕ)) × (o ≡ some ws) × (length vs ≡ suc (length ws))
unfolding consed
consed_inv v none vs e = cc
consed_inv v (some ws) vs e = (ws, refl, ground (arith, e))

pub consed-some : (v : Option ℕ) (vs : List (Option ℕ)) → consed v (some vs) ≡ some (v ∷ vs)
unfolding consed
consed-some v vs = refl

read_pids_nil : (rounds : ℕ) (vs : List (Option ℕ)) → read_pids rounds [] ≡ some vs → length vs ≡ 0
unfolding read_pids strtok
read_pids_nil zero vs e = cc
read_pids_nil (suc rounds) vs e = ground (arith, e)

-- The loop makes no more rounds than the string has ends, and one.
pub read_pids_bound :
    (rounds : ℕ) (str : List ℕ) (vs : List (Option ℕ))
    → read_pids rounds str ≡ some vs
    → length vs ≤ ends str + 1
read_pids_bound zero str vs e = unfold read_pids in cc
read_pids_bound (suc rounds) str vs e = elim (Option-cases (strtok str)) [
  | inl last ↦
      let empty : some vs ≡ some [] = sym e ∙ read_pids_last rounds str last in
      ground (arith, empty)
  | inr ((n, str'), found) ↦
      let (ws, later, long) =
        consed_inv (scan_lu str') _ vs (sym (read_pids_more rounds n str str' found) ∙ e) in
      let ih = read_pids_bound rounds (drop (suc n) str') ws later in
      let (spent, _, _, _) = strtok-Spent str str' n found in
      elim spent [
        | inl less ↦ omega (arith, ih, less, long)
        | inr none_left ↦ omega (arith, long, read_pids_nil rounds ws (rw none_left at later))
      ]
]

-- As many rounds as the string has bytes, and one, are enough.
pub read_pids_total :
    (rounds : ℕ) (str : List ℕ)
    → length str < rounds
    → (vs : List (Option ℕ)) × (read_pids rounds str ≡ some vs)
read_pids_total zero str h = absurd (omega (arith, h))
read_pids_total (suc rounds) str h = elim (Option-cases (strtok str)) [
  | inl last ↦ ([], read_pids_last rounds str last)
  | inr ((n, str'), found) ↦
      let (_, _, long, more) = strtok-Spent str str' n found in
      let (vs, later) =
        read_pids_total rounds (drop (suc n) str')
          (omega (arith, h, length-drop (suc n) str', long, more)) in
      (
        scan_lu str' ∷ vs,
        read_pids_more rounds n str str' found
            ∙ (ap (consed (scan_lu str')) later ∙ consed-some (scan_lu str') vs),
      )
]

-- A line without a byte 0 has as many ends as spaces.
abbrev pub NoZero : List ℕ → Type 0
NoZero [] = Unit {0}
NoZero (c ∷ s) = (c ≢ 0) × NoZero s

ends-count_spaces : (s : List ℕ) → NoZero s → ends s ≡ count_spaces s
unfolding count_spaces
ends-count_spaces [] h = refl
ends-count_spaces (c ∷ s) h = ground (arith, h.0, ends-count_spaces s h.1)

fgets-NoZero : (room : ℕ) (out : List ℕ) → NoZero out → NoZero (fgets room out)
unfolding fgets
fgets-NoZero zero out h = tt
fgets-NoZero (suc room) [] h = tt
fgets-NoZero (suc room) (c ∷ out) h = elim (Bool-cases (c == newline)) [
  | inl e ↦ rw e (h.0, tt)
  | inr e ↦ rw e (h.0, fgets-NoZero room out h.1)
]

-- The line that child_pid_get works on: what fgets puts in its array.
abbrev pub line_of : List ℕ → List ℕ
line_of out = fgets (buf_size - 1) out

module _ (m : Allocator) where
  pub child_pid_get_lem :
      (c : ℕ) (out : List ℕ) (s : m.Store) (vs : List (Option ℕ))
      → let line = line_of (c ∷ out) in
        let size = count_spaces line + 1 in
        let (p, s') = m.malloc (size * 8) s in
        read_pids (suc (length line)) line ≡ some vs
        → child_pid_get m (c ∷ out) s ≡ some (record { p_arr = p; p_size = size; cells = vs }, s')
  unfolding child_pid_get child_pid_serialize2string
  child_pid_get_lem c out s vs e = rw e refl

  -- child_pid_get always comes to its end, and never writes outside its array, whatever the command
  -- printed: if it printed something, no byte 0, and a line that is shorter than the buffer, then
  -- the array that is returned was allocated with p_size cells, and the loop made no more rounds,
  -- each with a write to the next cell, than that.
  pub child_pid_get_in_bounds :
      (c : ℕ) (out : List ℕ) (s : m.Store)
      → NoZero (c ∷ out)
      → length (line_of (c ∷ out)) < buf_size - 1
      → (r : Pids) × (child_pid_get m (c ∷ out) s ≡ some (r, (m.malloc (r.p_size * 8) s).1))
        × (r.p_arr ≡ (m.malloc (r.p_size * 8) s).0)
        × (length r.cells ≤ r.p_size)
  child_pid_get_in_bounds c out s h short =
      let line = line_of (c ∷ out) in
      let (vs, e) = read_pids_total (suc (length line)) line (omega arith) in
      (
        _,
        child_pid_get_lem c out s vs e,
        refl,
        omega (
          arith,
          read_pids_bound (suc (length line)) line vs e,
          ends-count_spaces line (fgets-NoZero (buf_size - 1) (c ∷ out) h),
        ),
      )
