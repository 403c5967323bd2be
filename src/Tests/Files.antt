-- ===== src/Tests/Files.antt =====
-- Tests of File.antt and its children.
use multi_task_app.Prelude.{ℕ, ◌≡◌, inl, inr, refl, true, some, List, [], ◌∷◌, arith}
use multi_task_app.File.{
  count, os_file_read2, Outcome, moved, interrupted, failed, minus_one, Kernel, success,
  os_file_write, os_file_read, write_loop, read_loop, os_file_rewrite,
}
use multi_task_app.File.Transfer.{os_file_write_complete}
use multi_task_app.File.Whole.{os_file_read2_complete}

abbrev pieces : List Outcome
pieces = moved 2 ∷ interrupted ∷ moved 1 ∷ moved 1 ∷ moved 1 ∷ []

abbrev bytes : List ℕ
bytes = 10 ∷ 20 ∷ 30 ∷ 40 ∷ []

os_file_write_complete_example :
    os_file_write pieces bytes ≡ some (record { ret = 4; bytes = bytes })
os_file_write_complete_example =
    os_file_write_complete pieces bytes
      (inr (
        omega arith,
        omega arith,
        inr (omega arith, omega arith, inr (omega arith, omega arith, inl refl)),
      ))
      (omega arith) (omega arith)

abbrev broken : List Outcome
broken = moved 3 ∷ failed ∷ []

broken_write :
    os_file_write broken bytes ≡ some (record { ret = minus_one; bytes = 10 ∷ 20 ∷ 30 ∷ [] })
unfolding os_file_write write_loop
broken_write = refl

abbrev kernel : Kernel
kernel = record { opens = true; writes = broken; closes = true }

rewrite_keeps_tail :
    os_file_rewrite (record kernel { writes = moved 1 ∷ [] }) (1 ∷ 2 ∷ []) (9 ∷ [])
    ≡ some (success, 9 ∷ 2 ∷ [])
unfolding os_file_rewrite os_file_write write_loop
rewrite_keeps_tail = refl

short_read :
    os_file_read (moved 2 ∷ interrupted ∷ moved 0 ∷ []) (10 ∷ 20 ∷ []) 4
    ≡ some (record { ret = 2; bytes = 10 ∷ 20 ∷ [] })
unfolding os_file_read read_loop
short_read = refl

abbrev whole : Kernel
whole = record { opens = true; writes = moved 4 ∷ moved 1 ∷ moved 1 ∷ moved 1 ∷ []; closes = true }

os_file_read2_complete_example :
    os_file_read2 0 (moved 2 ∷ interrupted ∷ moved 2 ∷ moved 0 ∷ moved 0 ∷ []) bytes 4
    ≡ some (count 4, bytes)
os_file_read2_complete_example =
    os_file_read2_complete (moved 2 ∷ interrupted ∷ moved 2 ∷ moved 0 ∷ moved 0 ∷ []) bytes 4
      (inr (
        omega arith,
        omega arith,
        inl (omega arith),
        inr (omega arith, omega arith, inl (omega arith), inl refl),
      ))
      (omega arith) (omega arith)
