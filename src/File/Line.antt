-- ===== src/File/Line.antt =====
-- The lines that os_file_key_write of os_file.c appends.
use multi_task_app.Prelude.{
  ℕ, ◌+◌, ◌-◌, ◌≤◌, ◌<◌, ◌≡◌, refl, ◌∙◌, ap, true, length, length-append, take, take_all,
  length-take, length-take_le, some, List, [], ◌∷◌, ◌++◌, arith,
}
use multi_task_app.File.{Kernel, success, key_buf, os_file_write_str, os_file_key_write}
use multi_task_app.File.Transfer.{AllMove, moves, os_file_write_complete, not_negative}

abbrev pub line : List ℕ → List ℕ → List ℕ
line key val = key ++ b'=' ∷ (val ++ 10 ∷ [])

length-line : (key val : List ℕ) → length (line key val) ≡ length key + length val + 2
length-line key val =
    omega (arith, length-append {0} key (b'=' ∷ (val ++ 10 ∷ [])), length-append {0} val (10 ∷ []))

key_write_lem :
    (k : Kernel) (file key val : List ℕ)
    → k.opens ≡ true
    → k.closes ≡ true
    → AllMove k.writes (length (take (key_buf - 1) (line key val)))
    → length (take (key_buf - 1) (line key val)) ≤ moves k.writes
    → os_file_key_write k file key val ≡ some (success, file ++ take 511 (line key val))
unfolding os_file_key_write os_file_write_str
key_write_lem k file key val o c h e =
    let str = take (key_buf - 1) (line key val) in
    let written =
      os_file_write_complete k.writes str h e (omega (arith, length-take_le 511 (line key val))) in
    rw (o, written, c, not_negative (length str)) refl

-- If open and close succeed, and write makes progress until all is written, os_file_key_write of
-- a key and a value of at most 509 bytes together returns 0 and appends exactly the line
-- `key=val` to the file.
pub os_file_key_write_appends :
    (k : Kernel) (file key val : List ℕ)
    → k.opens ≡ true
    → k.closes ≡ true
    → AllMove k.writes (length (line key val))
    → length (line key val) ≤ moves k.writes
    → length key + length val ≤ 509
    → os_file_key_write k file key val ≡ some (success, file ++ line key val)
os_file_key_write_appends k file key val o c h e fits =
    let all = take_all 511 (line key val) (omega (arith, length-line key val, fits)) in
    key_write_lem k file key val o c (rw all h) (rw all e) ∙ ap (λ x. some (success, file ++ x)) all

-- Of a key and a value of more than 509 bytes together it appends only the first 511 bytes of the
-- line, without its end, and still returns 0.
pub os_file_key_write_truncates :
    (k : Kernel) (file key val : List ℕ)
    → k.opens ≡ true
    → k.closes ≡ true
    → AllMove k.writes 511
    → 511 ≤ moves k.writes
    → 509 < length key + length val
    → (os_file_key_write k file key val ≡ some (success, file ++ take 511 (line key val)))
      × (length (take 511 (line key val)) ≡ 511)
os_file_key_write_truncates k file key val o c h e long =
    let cut = length-take 511 (line key val) (omega (arith, length-line key val, long)) in
    (key_write_lem k file key val o c (rw cut h) (rw cut e), cut)
