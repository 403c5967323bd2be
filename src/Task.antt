-- ===== src/Task.antt =====
-- platform/os/linux/base/os_task.c: the list of tasks under os_task_mutex, the searches in it, and
-- the trace of each task's allocations. Each function here holds the mutex throughout.
pub mod Lookup
pub mod Ledger
pub mod Show
pub mod Life
pub mod Spawned
pub mod Ended
use multi_task_app.Prelude.{
  ℕ, ◌==◌, if◌then◌else◌, Bool, Option, none, some, List, [], ◌∷◌, ◌++◌, String, str_eq,
}

-- os_task_mm_node_t of os_task.h, with its own address; `os_task_name` is `none` until written.
pub record MmNode : Type 0 where
  pub self : ℕ
  pub os_task_name : Option String
  pub pid : ℕ
  pub tid : ℕ
  pub func : String
  pub line : ℕ
  pub size : ℕ
  pub addr : ℕ

-- struct os_task_s with its own address: the fields of `info`, the address of the queue `q`, 0 for
-- NULL, and the entries that `head` links. `func` and `arg` are addresses.
pub record Task : Type 0 where
  pub self : ℕ
  pub name : String
  pub stack_size : ℕ
  pub priority : ℕ
  pub func : ℕ
  pub arg : ℕ
  pub tid : ℕ
  pub pid : ℕ
  pub q : ℕ
  pub head : List MmNode

-- The searches share one loop: the first task that passes the test, where the loop breaks.
unfoldable pub find : (Task → Bool) → List Task → Option Task
find p [] = none
find p (t ∷ ts) = if p t then some t else find p ts

abbrev pub queue_of : Option Task → ℕ
queue_of none = 0
queue_of (some t) = t.q

abbrev pub name_of : Option Task → Option String
name_of none = none
name_of (some t) = some t.name

unfoldable pub os_task_aq_get : String → List Task → ℕ
os_task_aq_get name ts = queue_of (find (λ t. str_eq name t.name) ts)

unfoldable pub os_task_name_get_from_pid : ℕ → List Task → Option String
os_task_name_get_from_pid pid ts = name_of (find (λ t. pid == t.pid) ts)

unfoldable pub os_task_name_get_from_tid : ℕ → List Task → Option String
os_task_name_get_from_tid tid ts = name_of (find (λ t. tid == t.tid) ts)

-- `tid` is the calling thread's, by pthread_self.
unfoldable pub os_task_aq_self : ℕ → List Task → ℕ
os_task_aq_self tid ts = queue_of (find (λ t. tid == t.tid) ts)

unfoldable pub os_task_mm_add : ℕ → MmNode → List Task → List Task
os_task_mm_add tid n [] = []
os_task_mm_add tid n (t ∷ ts) =
    if tid == t.tid then record t { head = t.head ++ n ∷ [] } ∷ ts else t ∷ os_task_mm_add tid n ts

-- The inner loop of os_task_mm_del, and the loop of os_mm_free over os_mm_list: the first entry
-- for the address is unlinked. The entry itself, for the caller to free, and the rest.
unfoldable pub unlink : ℕ → List MmNode → Option MmNode × List MmNode
unlink addr [] = (none, [])
unlink addr (n ∷ ns) =
    let (found, rest) = unlink addr ns in if addr == n.addr then (some n, ns) else (found, n ∷ rest)

or_further :
    Task
    → List Task
    → Option MmNode × List MmNode
    → Option MmNode × List Task
    → Option MmNode × List Task
or_further t ts (some n, head) later = (some n, record t { head = head } ∷ ts)
or_further t ts (none, head) (found, rest) = (found, t ∷ rest)

-- os_task_mm_del looks through the tasks in order and never at its argument `tid`.
unfoldable pub os_task_mm_del : ℕ → ℕ → List Task → Option MmNode × List Task
unfolding or_further
os_task_mm_del tid addr [] = (none, [])
os_task_mm_del tid addr (t ∷ ts) = or_further t ts (unlink addr t.head) (os_task_mm_del tid addr ts)
