-- ===== src/Mm.antt =====
-- platform/os/linux/base/os_mm.c: MALLOC and FREE, which trace each block in os_mm_list and at the
-- task of the calling thread.
pub mod Trace
pub mod Leak
pub mod Live
pub mod Interface
use multi_task_app.Prelude.{
  ℕ, ◌+◌, ◌≡◌, ◌≢◌, ◌==◌, if◌then◌else◌, Bool, true, false, Option, none, some, List, [], ◌∷◌, ◌++◌,
  map, take, ◌-◌, String, erase, occurrences,
}
use multi_task_app.Task.{Task, MmNode, os_task_mm_add, os_task_mm_del, unlink}

-- The blocks that malloc of libc has given out, those of the callers apart from those of the trace
-- entries, and the two kinds of list that hold the entries.
pub record Sys : Type 0 where
  pub user : List ℕ
  pub traces : List ℕ
  pub os_mm_list : List MmNode
  pub os_task_list : List Task

-- The calling thread: gettid, pthread_self, and the name that prctl reads.
pub record Caller : Type 0 where
  pub pid : ℕ
  pub tid : ℕ
  pub comm : String

-- What os_mm_free is compiled with. The headers define CONFIG_OS_TASK_MM_TRACE and
-- CONFIG_OS_MM_TRACE, on which os_mm_malloc depends; os_mm_free reads two other macros.
pub record Config : Type 0 where
  pub config_task_mm_trace : Bool
  pub config_mm_trace : Bool

-- The repository defines neither macro: no header, no makefile and no build file names them.
abbrev pub as_built : Config
as_built = record { config_task_mm_trace = false; config_mm_trace = false }

abbrev pub both_on : Config
both_on = record { config_task_mm_trace = true; config_mm_trace = true }

-- sizeof(os_task_mm_node_t) on a 64-bit target.
abbrev pub mm_node_size : ℕ
mm_node_size = 104

-- `libc live n` is the address that malloc(n) returns while `live` are the blocks given out, 0 for
-- NULL.
module _ (libc : List ℕ → ℕ → ℕ) where
  -- malloc and the assert on its result: `none` where the assert stops the process.
  unfoldable pub take_user : ℕ → Sys → Option (ℕ × Sys)
  take_user n s =
      let p = libc (s.user ++ s.traces) n in
      if p == 0 then none else some (p, record s { user = p ∷ s.user })

  unfoldable pub take_trace : Sys → Option (ℕ × Sys)
  take_trace s =
      let p = libc (s.user ++ s.traces) mm_node_size in
      if p == 0 then none else some (p, record s { traces = p ∷ s.traces })

  -- The entry for a task's list, with the name that prctl writes to it.
  trace_task : Caller → String → ℕ → ℕ → ℕ → Option (ℕ × Sys) → Option Sys
  trace_task c func line size addr none = none
  trace_task c func line size addr (some (p, s)) =
      let node : MmNode = record {
        self = p;
        os_task_name = some c.comm;
        pid = c.pid;
        tid = c.tid;
        func = func;
        line = line;
        size = size;
        addr = addr;
      } in
      some (record s { os_task_list = os_task_mm_add c.tid node s.os_task_list })

  -- The entry for os_mm_list. Its prctl writes the name to the other entry, `node`, so the name of
  -- this one is never written.
  trace_mm : Caller → String → ℕ → ℕ → ℕ → Option (ℕ × Sys) → Option (ℕ × Sys)
  trace_mm c func line size addr none = none
  trace_mm c func line size addr (some (p, s)) =
      let mm_node : MmNode = record {
        self = p;
        os_task_name = none;
        pid = c.pid;
        tid = c.tid;
        func = func;
        line = line;
        size = size;
        addr = addr;
      } in
      some (addr, record s { os_mm_list = s.os_mm_list ++ mm_node ∷ [] })

  trace_both : Caller → String → ℕ → ℕ → ℕ → Option Sys → Option (ℕ × Sys)
  unfolding trace_mm
  trace_both c func line size addr none = none
  trace_both c func line size addr (some s) = trace_mm c func line size addr (take_trace s)

  traced : Caller → String → ℕ → ℕ → Option (ℕ × Sys) → Option (ℕ × Sys)
  unfolding trace_both trace_task
  traced c func line size none = none
  traced c func line size (some (addr, s)) =
      trace_both c func line size addr (trace_task c func line size addr (take_trace s))

  unfoldable pub os_mm_malloc : Caller → String → ℕ → ℕ → Sys → Option (ℕ × Sys)
  unfolding traced take_user take_trace
  os_mm_malloc c func line size s = traced c func line size (take_user size s)

-- free(node) of an entry that was unlinked.
free_trace : Option MmNode → List ℕ → List ℕ
free_trace none traces = traces
free_trace (some n) traces = erase n.self traces

untrace_task : Caller → ℕ → Sys → Sys
unfolding free_trace
untrace_task c addr s =
    let (found, tasks) = os_task_mm_del c.tid addr s.os_task_list in
    record s { os_task_list = tasks; traces = free_trace found s.traces }

untrace_mm : ℕ → Sys → Sys
unfolding free_trace
untrace_mm addr s =
    let (found, rest) = unlink addr s.os_mm_list in
    record s { os_mm_list = rest; traces = free_trace found s.traces }

free_user : ℕ → Sys → Sys
free_user addr s = record s { user = erase addr s.user }

unfoldable pub os_mm_free : Config → Caller → ℕ → Sys → Sys
unfolding untrace_task untrace_mm free_user
os_mm_free g c addr s =
    let s' = if g.config_task_mm_trace then untrace_task c addr s else s in
    let s'' = if g.config_mm_trace then untrace_mm addr s' else s' in
    if addr == 0 then s else free_user addr s''

-- os_mm_show prints one row for each entry of os_mm_list, in order.
unfoldable pub os_mm_show : Sys → List (Option String × ℕ × ℕ × String × ℕ × ℕ × ℕ)
os_mm_show s =
    map (λ n. (n.os_task_name, n.tid, n.pid, n.func, n.line, n.addr, n.size)) s.os_mm_list

-- os_mm_show2 prints the rows that are cut off to fit its array, and gives each to `show`, if that
-- is not NULL. `text` is what the format makes of an entry.
abbrev pub row_buf : ℕ
row_buf = 1024

unfoldable pub os_mm_show2 : (MmNode → List ℕ) → Bool → Sys → List (List ℕ) × List (List ℕ)
os_mm_show2 text show s =
    let rows = map (λ n. take (row_buf - 1) (text n)) s.os_mm_list in
    (rows, if show then rows else [])
