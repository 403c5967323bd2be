-- ===== src/Mm/Trace.antt =====
-- What os_mm_malloc of os_mm.c returns and records, and what os_mm_free gives back where it is
-- compiled to delete the records.
use multi_task_app.Prelude.{
  ℕ, ◌≡◌, ◌≢◌, refl, ◌==◌, false, Option, none, some, List, [], ◌∷◌, ◌++◌, String, erase, arith,
}
use multi_task_app.Task.{MmNode, os_task_mm_add}
use multi_task_app.Task.Lookup.{NoneHas}
use multi_task_app.Task.Ledger.{Untraced, NoneTraces, unlink_last, mm_del-mm_add}
use multi_task_app.Mm.{Sys, Caller, both_on, mm_node_size, os_mm_malloc, os_mm_free}

-- The entry that records an allocation, at its own address and with its name.
abbrev pub entry : Caller → String → ℕ → ℕ → ℕ → ℕ → Option String → MmNode
entry c func line size addr self name = record {
  self = self;
  os_task_name = name;
  pid = c.pid;
  tid = c.tid;
  func = func;
  line = line;
  size = size;
  addr = addr;
}

-- malloc of libc never returns NULL.
abbrev pub NeverNull : (List ℕ → ℕ → ℕ) → Type 0
NeverNull libc = (live : List ℕ) (n : ℕ) → libc live n ≢ 0

nonnull_test : (p : ℕ) → p ≢ 0 → (p == 0) ≡ false
nonnull_test p h = ground (arith, h)

erase_first : (p : ℕ) (ts : List ℕ) → erase p (p ∷ ts) ≡ ts
erase_first p ts = ground arith

erase_both : (p q : ℕ) (ts : List ℕ) → erase p (erase q (p ∷ q ∷ ts)) ≡ ts
erase_both p q ts = ground arith

module _ (libc : List ℕ → ℕ → ℕ) where
  -- The addresses that libc gives for the block, the task's entry and the list's entry.
  abbrev pub block : ℕ → Sys → ℕ
  block n s = libc (s.user ++ s.traces) n

  abbrev pub task_entry : ℕ → Sys → ℕ
  task_entry n s = libc (block n s ∷ (s.user ++ s.traces)) mm_node_size

  abbrev pub list_entry : ℕ → Sys → ℕ
  list_entry n s = libc ((block n s ∷ s.user) ++ task_entry n s ∷ s.traces) mm_node_size

  -- The system after a MALLOC.
  abbrev pub recorded : Caller → String → ℕ → ℕ → Sys → Sys
  recorded c func line n s = record {
    user = block n s ∷ s.user;
    traces = list_entry n s ∷ task_entry n s ∷ s.traces;
    os_mm_list = s.os_mm_list ++ entry c func line n (block n s) (list_entry n s) none ∷ [];
    os_task_list =
        os_task_mm_add c.tid (entry c func line n (block n s) (task_entry n s) (some c.comm))
          s.os_task_list;
  }

  module _ (never_null : NeverNull libc) where
    -- While libc has memory, os_mm_malloc returns a new block, and records it once in os_mm_list
    -- and once at the task of the calling thread, in two further blocks. The record in os_mm_list
    -- has no task name.
    pub os_mm_malloc_lem :
        (c : Caller) (func : String) (line n : ℕ) (s : Sys)
        → os_mm_malloc libc c func line n s ≡ some (block n s, recorded c func line n s)
    unfolding os_mm_malloc
    os_mm_malloc_lem c func line n s = rw (nonnull_test (block n s) (never_null _ _)) (
        rw (nonnull_test (task_entry n s) (never_null _ _))
          (rw (nonnull_test (list_entry n s) (never_null _ _)) refl))

    -- Where os_mm_free is compiled to delete the traces, MALLOC and then FREE give back the
    -- system as it was, if a task runs on the thread and neither os_mm_list nor a task has a
    -- record for the address already.
    pub free-malloc :
        (c by : Caller) (func : String) (line n : ℕ) (s : Sys)
        → Untraced (block n s) s.os_mm_list
        → NoneTraces (block n s) s.os_task_list
        → ¬ NoneHas (λ t. c.tid == t.tid) s.os_task_list
        → os_mm_free both_on by (block n s) (recorded c func line n s) ≡ s
    unfolding os_mm_free
    free-malloc c by func line n s list tasks known =
        rw (nonnull_test (block n s) (never_null _ _)) (
          rw
            (
              mm_del-mm_add c.tid by.tid
                  (entry c func line n (block n s) (task_entry n s) (some c.comm)) s.os_task_list
                  tasks known,
              unlink_last (entry c func line n (block n s) (list_entry n s) none) s.os_mm_list list,
            )
            (λ i. record s {
              user = erase_first (block n s) s.user i;
              traces = erase_both (list_entry n s) (task_entry n s) s.traces i;
            }))
