-- ===== src/Misc.antt =====
-- platform/os/linux/base/os_misc.c: the thread ids of the process, read from the line that
-- `ls /proc/PID/task | xargs` prints.
pub mod Bounds
pub mod Words
use multi_task_app.Prelude.{
  ℕ, zero, suc, ◌+◌, ◌-◌, ◌*◌, ◌%◌, ◌^◌, ◌==◌, leb, ltb, ◌&&◌, ◌||◌, if◌then◌else◌, length, take,
  drop, Option, none, some, List, [], ◌∷◌, ◌++◌, Bool,
}
use multi_task_app.Alloc.{Allocator}

-- The strings are lists of bytes. A string ends at its first 0 or with the list, behind which the
-- array holds zeros.
abbrev pub space : ℕ
space = 32

abbrev pub newline : ℕ
newline = 10

-- fgets of one line into an array: at most `room` bytes, and no further than a newline.
unfoldable pub fgets : ℕ → List ℕ → List ℕ
fgets zero out = []
fgets (suc room) [] = []
fgets (suc room) (c ∷ out) = let rest = fgets room out in if c == newline then c ∷ [] else c ∷ rest

-- child_pid_serialize2string into an array of `size` bytes, where the command printed `out`: `none`
-- where it printed nothing and the assert stops the process.
unfoldable pub child_pid_serialize2string : ℕ → List ℕ → Option (List ℕ)
unfolding fgets
child_pid_serialize2string size [] = none
child_pid_serialize2string size (c ∷ out) = some (fgets (size - 1) (c ∷ out))

-- The loop that counts the spaces, up to the end of the string.
unfoldable pub count_spaces : List ℕ → ℕ
count_spaces [] = 0
count_spaces (c ∷ s) =
    let rest = count_spaces s in if c == 0 then 0 else if c == space then rest + 1 else rest

-- The token at the start of a string: its length, and the string with the space behind the token
-- overwritten by 0.
unfoldable pub token : List ℕ → ℕ × List ℕ
token [] = (0, [])
token (c ∷ s) =
    let (n, rest) = token s in
    if c == 0 then (0, c ∷ s) else if c == space then (0, 0 ∷ s) else (suc n, c ∷ rest)

unfoldable pub behind : ℕ → Option (ℕ × List ℕ) → Option (ℕ × List ℕ)
behind c none = none
behind c (some (n, rest)) = some (n, c ∷ rest)

-- strtok(str, " ") on a string that is not NULL: the length of the token it finds behind the
-- spaces, and what it leaves at `str`.
unfoldable pub strtok : List ℕ → Option (ℕ × List ℕ)
unfolding token behind
strtok [] = none
strtok (c ∷ s) =
    let rest = strtok s in
    if c == 0 then none else if c == space then behind c rest else some (token (c ∷ s))

-- sscanf(str, "%lu", ..): the white space is skipped, a sign is read, then digits; the value is cut
-- off at ULONG_MAX. `none` if there is no digit, when nothing is written.
abbrev pub is_digit : ℕ → Bool
is_digit c = leb b'0' c && leb c b'9'

abbrev pub ulong_max : ℕ
ulong_max = 2 ^ 64 - 1

unfoldable pub digits_value : ℕ → List ℕ → ℕ
digits_value v [] = v
digits_value v (c ∷ s) =
    let rest = digits_value (v * 10 + (c - b'0')) s in if is_digit c then rest else v

abbrev pub cut_off : ℕ → ℕ
cut_off v = if ltb ulong_max v then ulong_max else v

unsigned : List ℕ → Option ℕ
unfolding digits_value
unsigned [] = none
unsigned (c ∷ s) = if is_digit c then some (cut_off (digits_value 0 (c ∷ s))) else none

negated : Option ℕ → Option ℕ
negated none = none
negated (some v) = some ((ulong_max + 1 - v) % (ulong_max + 1))

signed : List ℕ → Option ℕ
unfolding unsigned negated
signed [] = none
signed (c ∷ s) =
    if c == b'-' then negated (unsigned s) else if c == b'+' then unsigned s else unsigned (c ∷ s)

abbrev pub is_white : ℕ → Bool
is_white c = c == space || (leb 9 c && leb c 13)

unfoldable pub scan_lu : List ℕ → Option ℕ
unfolding signed
scan_lu [] = none
scan_lu (c ∷ s) = let rest = scan_lu s in if is_white c then rest else signed (c ∷ s)

unfoldable pub consed : Option ℕ → Option (List (Option ℕ)) → Option (List (Option ℕ))
consed v none = none
consed v (some vs) = some (v ∷ vs)

-- The loop over strtok: what sscanf reads in each round, for p_arr[0], p_arr[1] and so on. `none`
-- if the rounds are not enough.
unfoldable pub read_pids : ℕ → List ℕ → Option (List (Option ℕ))
unfolding strtok consed
read_pids zero str = none
read_pids (suc rounds) str = elim (strtok str) [
  | none ↦ some []
  | some (n, str') ↦ consed (scan_lu str') (read_pids rounds (drop (suc n) str'))
]

-- What child_pid_get returns: the array, and what its first cells were given; the other cells of
-- the `p_size` are as MALLOC left them.
pub record Pids : Type 0 where
  pub p_arr : ℕ
  pub p_size : ℕ
  pub cells : List (Option ℕ)

-- The array is char buf[1024]. A line of 1023 bytes is not modelled to the end: the code then looks
-- for a token one byte behind the array.
abbrev pub buf_size : ℕ
buf_size = 1024

module _ (m : Allocator) where
  open m use {Store, malloc, free}

  filled : ℕ → ℕ → Option (List (Option ℕ)) → Store → Option (Pids × Store)
  filled p cnt none s = none
  filled p cnt (some vs) s = some (record { p_arr = p; p_size = cnt; cells = vs }, s)

  parsed : Option (List ℕ) → Store → Option (Pids × Store)
  unfolding filled
  parsed none s = none
  parsed (some buf) s =
      let cnt = count_spaces buf + 1 in
      let (p, s') = malloc (cnt * 8) s in filled p cnt (read_pids (suc (length buf)) buf) s'

  -- child_pid_get with both pointers given, where the command prints `out`; MALLOC does not return
  -- NULL. `none` where the assert stops the process.
  unfoldable pub child_pid_get : List ℕ → Store → Option (Pids × Store)
  unfolding parsed
  child_pid_get out s = parsed (child_pid_serialize2string buf_size out) s

  unfoldable pub child_pid_free : ℕ → Store → Store
  child_pid_free p s = if p == 0 then s else free p s
