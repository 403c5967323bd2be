-- ===== src/Tests/Listing.antt =====
-- Tests of Misc.antt and its children.
use multi_task_app.Prelude.{
  occurrences, ℕ, ◌*◌, ◌≤◌, ◌≡◌, ◌<◌, ◌-◌, ◌≢◌, length, some, List, [], ◌∷◌, ◌++◌, arith,
}
use multi_task_app.Misc.{Pids, newline, buf_size, fgets, digits_value, ulong_max, child_pid_get}
use multi_task_app.Misc.Bounds.{line_of, child_pid_get_in_bounds}
use multi_task_app.Misc.Words.{IsNumber, joined, child_pid_get_reads}
use multi_task_app.Mm.{Sys}
use multi_task_app.Task.Show.{sizes, totals}
use multi_task_app.Monitor.{Display, show_process}
use multi_task_app.Task.{MmNode, os_task_mm_add}
use multi_task_app.Monitor.Rows.{show_process-totals}
use multi_task_app.Tests.World.{task, allocator, five}

-- Two spaces in a row, and a word that is no number.
abbrev odd_line : List ℕ
odd_line = b' ' ∷ b' ' ∷ b'7' ∷ b' ' ∷ b'x' ∷ newline ∷ []

odd_line_short : length (line_of (b'1' ∷ odd_line)) < buf_size - 1
unfolding fgets
odd_line_short = omega arith

child_pid_get_in_bounds_example :
    (r : Pids) × (child_pid_get allocator (b'1' ∷ odd_line) five
      ≡ some (r, (allocator.malloc (r.p_size * 8) five).1))
    × (r.p_arr ≡ (allocator.malloc (r.p_size * 8) five).0)
    × (length r.cells ≤ r.p_size)
child_pid_get_in_bounds_example =
    child_pid_get_in_bounds allocator b'1' odd_line five
      (
        omega arith,
        (
          omega arith,
          (omega arith, (omega arith, (omega arith, (omega arith, (omega arith, tt))))),
        ),
      )
      odd_line_short

abbrev twelve : List ℕ
twelve = b'1' ∷ b'2' ∷ []

nonempty : (c : ℕ) (w : List ℕ) → c ∷ w ≢ []
nonempty c w e = cc e

twelve_small : digits_value 0 twelve ≤ ulong_max
unfolding digits_value
twelve_small = omega arith

seven : IsNumber (b'7' ∷ [])
unfolding digits_value
seven = (nonempty b'7' [], (omega arith, omega arith, tt), omega arith)

child_pid_get_reads_example :
    let (p, s') = allocator.malloc 16 five in
    child_pid_get allocator (joined twelve ((b'7' ∷ []) ∷ []) ++ newline ∷ []) five
    ≡ some (record { p_arr = p; p_size = 2; cells = some 12 ∷ some 7 ∷ [] }, s')
unfolding digits_value
child_pid_get_reads_example =
    child_pid_get_reads allocator twelve ((b'7' ∷ []) ∷ []) [] five
      (
        nonempty b'1' (b'2' ∷ []),
        (omega arith, omega arith, (omega arith, omega arith, tt)),
        twelve_small,
      )
      (seven, tt) (omega arith)

-- The entry of the trace: main calls.
abbrev entry : MmNode
entry = record {
  self = 30;
  os_task_name = some "main";
  pid = 12;
  tid = 20;
  func = "child_pid_get";
  line = 86;
  size = 0;
  addr = 0;
}

show_process-totals_example :
    let traced = record entry { size = 16; addr = (allocator.malloc 16 five).0 } in
    (end : Display Sys) × (show_process allocator
        (λ i. 99)
        entry
        (joined twelve ((b'7' ∷ []) ∷ []) ++ newline ∷ [])
        (task "main" 20 0 ∷ [])
        five
      ≡ some end)
    × (end.tasks ≡ os_task_mm_add 20 traced (task "main" 20 0 ∷ []))
    × (sizes end.rows ≡ totals (12 ∷ 7 ∷ []) end.tasks)
    × ((a : ℕ) → occurrences a end.store.user ≡ occurrences a five.user)
unfolding digits_value
show_process-totals_example =
    show_process-totals allocator (λ i. 99) entry twelve ((b'7' ∷ []) ∷ []) []
      (task "main" 20 0 ∷ []) five
      (
        nonempty b'1' (b'2' ∷ []),
        (omega arith, omega arith, (omega arith, omega arith, tt)),
        twelve_small,
      )
      (seven, tt) (omega arith)
