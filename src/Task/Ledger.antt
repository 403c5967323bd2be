-- ===== src/Task/Ledger.antt =====
-- The trace of allocations that os_task.c keeps at each task.
use mathlib.Core.Path.{ap₂}
use multi_task_app.Prelude.{
  ℕ, ◌≡◌, ◌≢◌, refl, ◌==◌, Bool-cases, inl, inr, none, some, List, [], ◌∷◌, ◌++◌, arith,
}
use multi_task_app.Task.{Task, MmNode, unlink, os_task_mm_add, os_task_mm_del}
use multi_task_app.Task.Lookup.{NoneHas}

-- No entry of the list, or of the tasks, is for the address.
abbrev pub Untraced : ℕ → List MmNode → Type 0
Untraced addr [] = Unit {0}
Untraced addr (n ∷ ns) = (addr ≢ n.addr) × Untraced addr ns

abbrev pub NoneTraces : ℕ → List Task → Type 0
NoneTraces addr [] = Unit {0}
NoneTraces addr (t ∷ ts) = Untraced addr t.head × NoneTraces addr ts

pub unlink-Untraced : (addr : ℕ) (ns : List MmNode) → Untraced addr ns → unlink addr ns ≡ (none, ns)
unfolding unlink
unlink-Untraced addr [] h = refl
unlink-Untraced addr (n ∷ ns) h = ground (arith, h.0, unlink-Untraced addr ns h.1)

pub unlink_last :
    (n : MmNode) (ns : List MmNode)
    → Untraced n.addr ns
    → unlink n.addr (ns ++ n ∷ []) ≡ (some n, ns)
unfolding unlink
unlink_last n [] h = ground arith
unlink_last n (k ∷ ns) h = ground (arith, h.0, unlink_last n ns h.1)

mm_del_untraced :
    (tid addr : ℕ) (ts : List Task) → NoneTraces addr ts → os_task_mm_del tid addr ts ≡ (none, ts)
unfolding os_task_mm_del
mm_del_untraced tid addr [] h = refl
mm_del_untraced tid addr (t ∷ ts) h =
    rw (unlink-Untraced addr t.head h.0, mm_del_untraced tid addr ts h.1) refl

-- Tracing an allocation and deleting its trace gives the tasks back as they were, and the entry to
-- free, if a task runs on the thread and no task has an entry for the address already. The
-- deletion may name any thread.
pub mm_del-mm_add :
    (tid by : ℕ) (n : MmNode) (ts : List Task)
    → NoneTraces n.addr ts
    → ¬ NoneHas (λ t. tid == t.tid) ts
    → os_task_mm_del by n.addr (os_task_mm_add tid n ts) ≡ (some n, ts)
unfolding os_task_mm_del os_task_mm_add
mm_del-mm_add tid by n [] h k = absurd (k tt)
mm_del-mm_add tid by n (t ∷ ts) h k = elim (Bool-cases (tid == t.tid)) [
  | inl e ↦ rw (e, unlink_last n t.head h.0) refl
  | inr e ↦
      rw (e, unlink-Untraced n.addr t.head h.0, mm_del-mm_add tid by n ts h.1 (λ a. k (e, a))) refl
]

-- An allocation by a thread that no task runs on leaves no trace: its entry is linked nowhere.
mm_add_unknown :
    (tid : ℕ) (n : MmNode) (ts : List Task)
    → NoneHas (λ t. tid == t.tid) ts
    → os_task_mm_add tid n ts ≡ ts
unfolding os_task_mm_add
mm_add_unknown tid n [] h = refl
mm_add_unknown tid n (t ∷ ts) h = rw h.0 (ap₂ ◌∷◌ refl (mm_add_unknown tid n ts h.1))
