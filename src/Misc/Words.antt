-- ===== src/Misc/Words.antt =====
-- child_pid_get of os_misc.c reads back the numbers of the line that it is given.
use multi_task_app.Prelude.{
  ℕ, zero, suc, ◌+◌, ◌-◌, ◌*◌, ◌≤◌, ◌<◌, ◌≡◌, ◌≢◌, refl, ap, ◌∙◌, false, length, length-append,
  drop, Option, none, some, List, [], ◌∷◌, ◌++◌, append_assoc, append-nil, map, arith,
}
use multi_task_app.Alloc.{Allocator}
use multi_task_app.Misc.{
  space, newline, ulong_max, is_digit, digits_value, count_spaces, token, strtok, scan_lu,
  read_pids, consed, fgets, child_pid_get, buf_size,
}
use multi_task_app.Misc.Bounds.{
  read_pids_last, read_pids_more, consed-some, child_pid_get_lem, line_of,
}

abbrev pub AreDigits : List ℕ → Type 0
AreDigits [] = Unit {0}
AreDigits (c ∷ w) = (b'0' ≤ c) × (c ≤ b'9') × AreDigits w

-- A word that spells a number of an unsigned long in decimal.
abbrev pub IsNumber : List ℕ → Type 0
IsNumber w = (w ≢ []) × AreDigits w × (digits_value 0 w ≤ ulong_max)

abbrev pub AreNumbers : List (List ℕ) → Type 0
AreNumbers [] = Unit {0}
AreNumbers (w ∷ ws) = IsNumber w × AreNumbers ws

-- Words with a space between any two.
abbrev pub joined : List ℕ → List (List ℕ) → List ℕ
joined w [] = w
joined w (v ∷ ws) = w ++ space ∷ joined v ws

token-space :
    (w rest : List ℕ) → AreDigits w → token (w ++ space ∷ rest) ≡ (length w, w ++ 0 ∷ rest)
unfolding token
token-space [] rest h = refl
token-space (c ∷ w) rest h = ground (arith, h, token-space w rest h.2)

token-newline :
    (w : List ℕ) → AreDigits w → token (w ++ newline ∷ []) ≡ (suc (length w), w ++ newline ∷ [])
unfolding token
token-newline [] h = refl
token-newline (c ∷ w) h = ground (arith, h, token-newline w h.2)

strtok-token :
    (w rest : List ℕ) → w ≢ [] → AreDigits w → strtok (w ++ rest) ≡ some (token (w ++ rest))
unfolding strtok
strtok-token [] rest n h = absurd (n refl)
strtok-token (c ∷ w) rest n h = ground (arith, h)

digits_value-append :
    (v stop : ℕ) (w rest : List ℕ)
    → AreDigits w
    → is_digit stop ≡ false
    → digits_value v (w ++ stop ∷ rest) ≡ digits_value v w
unfolding digits_value
digits_value-append v stop [] rest h e = rw e refl
digits_value-append v stop (c ∷ w) rest h e =
    rw (digits_value-append (v * 10 + (c - b'0')) stop w rest h.2 e)

scan_lu-append :
    (stop : ℕ) (w rest : List ℕ)
    → IsNumber w
    → is_digit stop ≡ false
    → scan_lu (w ++ stop ∷ rest) ≡ some (digits_value 0 w)
unfolding scan_lu
scan_lu-append stop [] rest (n, _, _) e = absurd (n refl)
scan_lu-append stop (c ∷ w) rest (n, h, fits) e =
    let value = digits_value-append 0 stop (c ∷ w) rest h e in ground (arith, h, value, fits)

drop-append : (w rest : List ℕ) (stop : ℕ) → drop (suc (length w)) (w ++ stop ∷ rest) ≡ rest
drop-append [] rest stop = refl
drop-append (c ∷ w) rest stop = drop-append w rest stop

count_spaces-append : (w rest : List ℕ) → AreDigits w → count_spaces (w ++ rest) ≡ count_spaces rest
unfolding count_spaces
count_spaces-append [] rest h = refl
count_spaces-append (c ∷ w) rest h = ground (arith, h, count_spaces-append w rest h.2)

-- The values that the words spell, as sscanf reads them.
abbrev pub values : List (List ℕ) → List (Option ℕ)
values = map (λ w. some (digits_value 0 w))

strtok_nil : strtok [] ≡ none
unfolding strtok
strtok_nil = refl

drop_past : (w : List ℕ) (stop : ℕ) → drop (suc (suc (length w))) (w ++ stop ∷ []) ≡ []
drop_past [] stop = refl
drop_past (c ∷ w) stop = drop_past w stop

read_pids_round :
    (rounds n : ℕ) (str str' : List ℕ) (v : Option ℕ) (vs : List (Option ℕ))
    → strtok str ≡ some (n, str')
    → scan_lu str' ≡ v
    → read_pids rounds (drop (suc n) str') ≡ some vs
    → read_pids (suc rounds) str ≡ some (v ∷ vs)
read_pids_round rounds n str str' v vs found read later =
    read_pids_more rounds n str str' found
    ∙ (ap (λ x. consed x (read_pids rounds (drop (suc n) str'))) read
        ∙ (ap (consed v) later ∙ consed-some v vs))

read_pids_line :
    (rounds : ℕ) (w : List ℕ) (ws : List (List ℕ))
    → IsNumber w
    → AreNumbers ws
    → suc (length ws) < rounds
    → read_pids rounds (joined w ws ++ newline ∷ []) ≡ some (values (w ∷ ws))
read_pids_line zero w ws n ns h = absurd (omega (arith, h))
read_pids_line (suc zero) w ws n ns h = absurd (omega (arith, h))
read_pids_line (suc (suc rounds)) w [] n ns h =
    let found = strtok-token w (newline ∷ []) n.0 n.1 ∙ ap some (token-newline w n.1) in
    let read = scan_lu-append newline w [] n refl in
    let ended =
      ap (read_pids (suc rounds)) (drop_past w newline) ∙ read_pids_last rounds [] strtok_nil in
    read_pids_round (suc rounds) _ _ _ _ [] found read ended
read_pids_line (suc (suc rounds)) w (v ∷ ws) n ns h =
    let rest = joined v ws ++ newline ∷ [] in
    let found = strtok-token w (space ∷ rest) n.0 n.1 ∙ ap some (token-space w rest n.1) in
    let read = scan_lu-append 0 w rest n refl in
    let later = read_pids_line (suc rounds) v ws ns.0 ns.1 (omega (arith, h)) in
    let next = ap (read_pids (suc rounds)) (drop-append w rest 0) ∙ later in
    ap (read_pids (suc (suc rounds))) (append_assoc w (space ∷ joined v ws) (newline ∷ []))
    ∙ read_pids_round (suc rounds) _ _ _ _ _ found read next

count_spaces-space :
    (rest : List ℕ) (k : ℕ) → count_spaces rest ≡ k → count_spaces (space ∷ rest) ≡ suc k
unfolding count_spaces
count_spaces-space rest k e = omega (arith, e)

count_spaces-joined :
    (w : List ℕ) (ws : List (List ℕ))
    → IsNumber w
    → AreNumbers ws
    → count_spaces (joined w ws ++ newline ∷ []) ≡ length ws
count_spaces-joined w [] n ns =
    count_spaces-append w (newline ∷ []) n.1 ∙ unfold count_spaces in refl
count_spaces-joined w (v ∷ ws) n ns =
    let rest = joined v ws ++ newline ∷ [] in
    let later = count_spaces-joined v ws ns.0 ns.1 in
    ap count_spaces (append_assoc w (space ∷ joined v ws) (newline ∷ []))
    ∙ (count_spaces-append w (space ∷ rest) n.1 ∙ count_spaces-space rest (length ws) later)

abbrev NoNewline : List ℕ → Type 0
NoNewline [] = Unit {0}
NoNewline (c ∷ s) = (c ≢ newline) × NoNewline s

NoNewline-append : (w rest : List ℕ) → AreDigits w → NoNewline rest → NoNewline (w ++ rest)
NoNewline-append [] rest h k = k
NoNewline-append (c ∷ w) rest h k = ((λ e. omega (arith, h.0, e)), NoNewline-append w rest h.2 k)

joined-NoNewline :
    (w : List ℕ) (ws : List (List ℕ)) → IsNumber w → AreNumbers ws → NoNewline (joined w ws)
joined-NoNewline w [] n ns = rw (← append-nil w) (NoNewline-append w [] n.1 tt)
joined-NoNewline w (v ∷ ws) n ns =
    NoNewline-append w (space ∷ joined v ws) n.1
      ((λ e. omega (arith, e)), joined-NoNewline v ws ns.0 ns.1)

fgets-append :
    (room : ℕ) (line out : List ℕ)
    → length line < room
    → NoNewline line
    → fgets room (line ++ newline ∷ out) ≡ line ++ newline ∷ []
unfolding fgets
fgets-append zero line out h k = absurd (omega (arith, h))
fgets-append (suc room) [] out h k = refl
fgets-append (suc room) (c ∷ line) out h k =
    ground (arith, k.0, fgets-append room line out (omega (arith, h)) k.1)

length-joined : (w : List ℕ) (ws : List (List ℕ)) → length ws ≤ length (joined w ws)
length-joined w [] = omega arith
length-joined w (v ∷ ws) =
    omega (arith, length-append {0} w (space ∷ joined v ws), length-joined v ws)

append-ne-nil : (xs : List ℕ) (c : ℕ) (ys : List ℕ) → xs ++ c ∷ ys ≢ []
append-ne-nil [] c ys e = cc
append-ne-nil (x ∷ xs) c ys e = cc

module _ (m : Allocator) where
  child_pid_get_line :
      (out line : List ℕ) (size : ℕ) (vs : List (Option ℕ)) (s : m.Store)
      → out ≢ []
      → line_of out ≡ line
      → count_spaces line + 1 ≡ size
      → read_pids (suc (length line)) line ≡ some vs
      → let (p, s') = m.malloc (size * 8) s in
        child_pid_get m out s ≡ some (record { p_arr = p; p_size = size; cells = vs }, s')
  child_pid_get_line [] line size vs s n el ec er = absurd (n refl)
  child_pid_get_line (c ∷ out) line size vs s n el ec er =
      let whole : read_pids (suc (length (line_of (c ∷ out)))) (line_of (c ∷ out)) ≡ some vs =
        rw el er in
      let cells : count_spaces (line_of (c ∷ out)) + 1 ≡ size =
        ap (λ x. count_spaces x + 1) el ∙ ec in
      rw (← cells) (child_pid_get_lem m c out s vs whole)

  -- child_pid_get reads back what the line spells: where the command prints numbers of an unsigned
  -- long with a space between any two, in a line that fits the buffer, the array has a cell for
  -- each number, and the cells hold the numbers in order.
  pub child_pid_get_reads :
      (w : List ℕ) (ws : List (List ℕ)) (out : List ℕ) (s : m.Store)
      → IsNumber w
      → AreNumbers ws
      → length (joined w ws) < buf_size - 2
      → let size = length (w ∷ ws) in
        let (p, s') = m.malloc (size * 8) s in
        child_pid_get m (joined w ws ++ newline ∷ out) s
        ≡ some (record { p_arr = p; p_size = size; cells = values (w ∷ ws) }, s')
  child_pid_get_reads w ws out s n ns h =
      let line = joined w ws ++ newline ∷ [] in
      let long = length-append {0} (joined w ws) (newline ∷ []) in
      child_pid_get_line (joined w ws ++ newline ∷ out) line (suc (length ws)) (values (w ∷ ws)) s
        (append-ne-nil (joined w ws) newline out)
        (fgets-append (buf_size - 1) (joined w ws) out (omega (arith, h))
          (joined-NoNewline w ws n ns))
        (omega (arith, count_spaces-joined w ws n ns))
        (read_pids_line (suc (length line)) w ws n ns (omega (arith, long, length-joined w ws)))
