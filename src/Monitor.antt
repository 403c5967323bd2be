-- ===== src/Monitor.antt =====
-- os_task_mm_show of platform/os/linux/base/os_task.c as a whole: the threads of the process by
-- child_pid_get of os_misc.c, and a row for each.
pub mod Rows
use multi_task_app.Prelude.{ℕ, zero, suc, ◌*◌, Option, none, some, List, [], ◌∷◌}
use multi_task_app.Msg.{Status, failure}
use multi_task_app.Alloc.{Allocator}
use multi_task_app.Task.{Task, MmNode, os_task_mm_add}
use multi_task_app.Task.Show.{Row, os_task_mm_show}
use multi_task_app.Misc.{Pids, child_pid_get, child_pid_free}

-- The cells of the array from `i` on, `junk` where nothing was written.
unfoldable pub read_cells : (ℕ → ℕ) → ℕ → ℕ → List (Option ℕ) → List ℕ
read_cells junk i zero cells = []
read_cells junk i (suc n) [] = junk i ∷ read_cells junk (suc i) n []
read_cells junk i (suc n) (none ∷ cells) = junk i ∷ read_cells junk (suc i) n cells
read_cells junk i (suc n) (some v ∷ cells) = v ∷ read_cells junk (suc i) n cells

-- What a call of os_task_mm_show comes to: the rows, and the tasks and the store behind it.
pub record Display (S : Type 0) : Type 0 where
  pub rows : List Row
  pub tasks : List Task
  pub store : S

-- The entry with which MALLOC traces the array of child_pid_get at the calling thread: `entry` has
-- its address and what identifies the thread and the place, and here come the size and the address.
abbrev pub array_entry : MmNode → Pids → MmNode
array_entry entry pids = record entry { size = pids.p_size * 8; addr = pids.p_arr }

module _ (m : Allocator) where
  open m use {Store}

  -- The array is traced before the loop over the pids; as the code is compiled, FREE leaves the
  -- entry at the task.
  shown : (ℕ → ℕ) → MmNode → List Task → Option (Pids × Store) → Option (Display Store)
  unfolding read_cells
  shown junk entry ts none = none
  shown junk entry ts (some (pids, s)) =
      let ts' = os_task_mm_add entry.tid (array_entry entry pids) ts in
      some (record {
        rows = os_task_mm_show (some (read_cells junk 0 pids.p_size pids.cells)) ts';
        tasks = ts';
        store = child_pid_free m pids.p_arr s;
      })

  -- `junk` is what MALLOC left in the cells, `entry` the entry of its trace, and `out` what the
  -- command of child_pid_get prints. `none` where an assert stops the process.
  unfoldable pub show_process :
      (ℕ → ℕ) → MmNode → List ℕ → List Task → Store → Option (Display Store)
  unfolding shown
  show_process junk entry out ts s = shown junk entry ts (child_pid_get m out s)

-- os_task_mm_json_get, all of whose body but the return of -1 is compiled out: what `ppjson` points
-- to stays as it is.
unfoldable pub os_task_mm_json_get : Option (List ℕ) → Status × Option (List ℕ)
os_task_mm_json_get pjson = (failure, pjson)
