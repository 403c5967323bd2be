-- ===== src/Monitor/Rows.antt =====
-- The rows of os_task_mm_show for the threads that the command lists.
use multi_task_app.Prelude.{
  suc, ℕ, ◌*◌, ◌-◌, ◌<◌, ◌≡◌, refl, ap, length, map, some, List, [], ◌∷◌, ◌++◌,
}
use multi_task_app.Alloc.{Allocator, malloc_check, blocks-free-malloc}
use multi_task_app.Task.{Task, MmNode, os_task_mm_add}
use multi_task_app.Task.Show.{sizes, totals, os_task_mm_show, mm_show_totals}
use multi_task_app.Misc.{newline, buf_size, digits_value, child_pid_free}
use multi_task_app.Misc.Words.{IsNumber, AreNumbers, joined, values, child_pid_get_reads}
use multi_task_app.Monitor.{Display, read_cells, show_process}

-- The numbers that the words spell in decimal.
abbrev pub numbers : List (List ℕ) → List ℕ
numbers = map (digits_value 0)

read_cells-values :
    (junk : ℕ → ℕ) (i : ℕ) (ws : List (List ℕ))
    → read_cells junk i (length ws) (values ws) ≡ numbers ws
unfolding read_cells
read_cells-values junk i [] = refl
read_cells-values junk i (w ∷ ws) =
    ap (λ l. digits_value 0 w ∷ l) (read_cells-values junk (suc i) ws)

module _ (m : Allocator) where
  open m use {Store, blocks, malloc}

  -- os_task_mm_show has a row for each thread of the process, with what its tasks have allocated:
  -- where the command prints numbers of an unsigned long with a space between any two, in a line
  -- that fits the buffer, the call ends with a row for each number, in order, whose size is the sum
  -- of the sizes traced at all tasks with that pid. The array of the numbers is in the sum already:
  -- its 8 bytes for each number are traced at the first task of the calling thread, where the entry
  -- stays. At each address as many blocks that callers hold are live as before.
  pub show_process-totals :
      (junk : ℕ → ℕ) (entry : MmNode) (w : List ℕ) (ws : List (List ℕ)) (out : List ℕ)
      (ts : List Task) (s : Store)
      → IsNumber w
      → AreNumbers ws
      → length (joined w ws) < buf_size - 2
      → let size = length (w ∷ ws) * 8 in
        let traced = record entry { size = size; addr = (malloc size s).0 } in
        (end : Display Store) × (show_process m junk entry (joined w ws ++ newline ∷ out) ts s
          ≡ some end)
        × (end.tasks ≡ os_task_mm_add entry.tid traced ts)
        × (sizes end.rows ≡ totals (numbers (w ∷ ws)) end.tasks)
        × ((a : ℕ) → blocks end.store a ≡ blocks s a)
  unfolding show_process child_pid_free
  show_process-totals junk entry w ws out ts s n ns h =
      let size = length (w ∷ ws) * 8 in
      let (p, t) = malloc size s in
      let ts' = os_task_mm_add entry.tid (record entry { size = size; addr = p }) ts in
      (
        record {
          rows = os_task_mm_show (some (numbers (w ∷ ws))) ts';
          tasks = ts';
          store = m.free p t;
        },
        rw
            (
              child_pid_get_reads m w ws out s n ns h,
              malloc_check m size s,
              read_cells-values junk 0 (w ∷ ws),
            )
            refl,
        refl,
        mm_show_totals (numbers (w ∷ ws)) ts',
        blocks-free-malloc m size s,
      )
