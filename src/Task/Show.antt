-- ===== src/Task/Show.antt =====
-- os_task_mm_show of platform/os/linux/base/os_task.c: one row for each thread of the process.
use native.Mathlib.Nat.{zero-add}
use multi_task_app.Prelude.{
  ℕ, ◌+◌, ◌≡◌, ◌≢◌, refl, ap, ◌==◌, if◌then◌else◌, Bool-cases, inl, inr, Option, none, some, List,
  [], ◌∷◌, String, map, arith,
}
use multi_task_app.Task.{Task, MmNode}

-- What the loop over os_task_list has set so far: os_task_name, os_task_tid, mem_size.
pub record Row : Type 0 where
  pub name : Option String
  pub pid : ℕ
  pub tid : ℕ
  pub size : ℕ

unfoldable pub sum_sizes : ℕ → List MmNode → ℕ
sum_sizes acc [] = acc
sum_sizes acc (n ∷ ns) = sum_sizes (acc + n.size) ns

-- The loop over the tasks: it does not break, so a later task with the pid adds to the row.
unfoldable pub show_tasks : Row → List Task → Row
unfolding sum_sizes
show_tasks r [] = r
show_tasks r (t ∷ ts) =
    show_tasks
      (if r.pid == t.pid
        then record r { name = some t.name; tid = t.tid; size = sum_sizes r.size t.head }
        else r)
      ts

-- The loop over the pids. os_task_name and mem_size are reset for each; os_task_tid is not.
unfoldable pub show_rows : ℕ → List ℕ → List Task → List Row
show_rows tid [] ts = []
show_rows tid (pid ∷ pids) ts =
    let r = show_tasks (record { name = none; pid = pid; tid = tid; size = 0 }) ts in
    r ∷ show_rows r.tid pids ts

-- `pids` is what child_pid_get returns, or `none` where it fails: then nothing is shown.
unfoldable pub os_task_mm_show : Option (List ℕ) → List Task → List Row
unfolding show_rows show_tasks
os_task_mm_show none ts = []
os_task_mm_show (some pids) ts = show_rows 0 pids ts

-- The bytes that the tasks with a pid have traced.
abbrev pub traced : List MmNode → ℕ
traced [] = 0
traced (n ∷ ns) = n.size + traced ns

abbrev pub traced_by : ℕ → List Task → ℕ
traced_by pid [] = 0
traced_by pid (t ∷ ts) = (if pid == t.pid then traced t.head else 0) + traced_by pid ts

abbrev pub NoPid : ℕ → List Task → Type 0
NoPid pid [] = Unit {0}
NoPid pid (t ∷ ts) = (pid ≢ t.pid) × NoPid pid ts

sum_sizes-traced : (acc : ℕ) (ns : List MmNode) → sum_sizes acc ns ≡ acc + traced ns
unfolding sum_sizes
sum_sizes-traced acc [] = omega arith
sum_sizes-traced acc (n ∷ ns) = omega (arith, sum_sizes-traced (acc + n.size) ns)

show_tasks-size :
    (r : Row) (ts : List Task)
    → ((show_tasks r ts).size ≡ r.size + traced_by r.pid ts) × ((show_tasks r ts).pid ≡ r.pid)
unfolding show_tasks
show_tasks-size r [] = (omega arith, refl)
show_tasks-size r (t ∷ ts) = elim (Bool-cases (r.pid == t.pid)) [
  | inl e ↦
      let (a, b) =
        show_tasks-size
          (record r { name = some t.name; tid = t.tid; size = sum_sizes r.size t.head }) ts in
      rw (e, show_tasks) (omega (arith, a, sum_sizes-traced r.size t.head), b)
  | inr e ↦ let (a, b) = show_tasks-size r ts in rw (e, show_tasks) (omega (arith, a), b)
]

show_tasks-NoPid : (r : Row) (ts : List Task) → NoPid r.pid ts → show_tasks r ts ≡ r
unfolding show_tasks
show_tasks-NoPid r [] h = refl
show_tasks-NoPid r (t ∷ ts) h = elim (Bool-cases (r.pid == t.pid)) [
  | inl e ↦ absurd (h.0 (ground (arith, e)))
  | inr e ↦ rw e (show_tasks-NoPid r ts h.1)
]

abbrev pub totals : List ℕ → List Task → List (ℕ × ℕ)
totals [] ts = []
totals (pid ∷ pids) ts = (pid, traced_by pid ts) ∷ totals pids ts

abbrev pub sizes : List Row → List (ℕ × ℕ)
sizes = map (λ r. (r.pid, r.size))

show_rows-totals :
    (tid : ℕ) (pids : List ℕ) (ts : List Task) → sizes (show_rows tid pids ts) ≡ totals pids ts
unfolding show_rows
show_rows-totals tid [] ts = refl
show_rows-totals tid (pid ∷ pids) ts =
    let (size, same) =
      show_tasks-size (record { name = none; pid = pid; tid = tid; size = 0 }) ts in
    let tid' = (show_tasks (record { name = none; pid = pid; tid = tid; size = 0 }) ts).tid in
    rw (same, size, zero-add) (ap (◌∷◌ (pid, traced_by pid ts)) (show_rows-totals tid' pids ts))

-- os_task_mm_show has a row for each pid, in the order of child_pid_get, and the size that it
-- shows is the sum of the sizes traced at all tasks with that pid.
pub mm_show_totals :
    (pids : List ℕ) (ts : List Task) → sizes (os_task_mm_show (some pids) ts) ≡ totals pids ts
unfolding os_task_mm_show
mm_show_totals pids ts = show_rows-totals 0 pids ts

-- The thread id of a row is not reset: a thread that no task runs on is shown with no name, size
-- 0, and the thread id of the row before it.
pub mm_show_stale_tid :
    (p q : ℕ) (ts : List Task)
    → NoPid q ts
    → (name : Option String) × (tid : ℕ) × (size : ℕ) × (os_task_mm_show (some (p ∷ q ∷ [])) ts
        ≡ record { name = name; pid = p; tid = tid; size = size }
          ∷ record { name = none; pid = q; tid = tid; size = 0 }
          ∷ [])
unfolding os_task_mm_show
mm_show_stale_tid p q ts h =
    let r = show_tasks (record { name = none; pid = p; tid = 0; size = 0 }) ts in
    let (_, same) = show_tasks-size (record { name = none; pid = p; tid = 0; size = 0 }) ts in
    (
      r.name,
      r.tid,
      r.size,
      rw (show_tasks-NoPid (record { name = none; pid = q; tid = r.tid; size = 0 }) ts h) (
          ap
            (λ k.
              record { name = r.name; pid = k; tid = r.tid; size = r.size }
              ∷ record { name = none; pid = q; tid = r.tid; size = 0 }
              ∷ [])
            same),
    )
