-- ===== src/Tests/World.antt =====
-- A C library with memory to spare, one thread, and an empty system.
use multi_task_app.Prelude.{
  ℕ, suc, ◌≡◌, ◌<◌, refl, occurrences, List, [], ◌∷◌, String, some, if◌then◌else◌, ltb, arith,
}
use multi_task_app.Prelude.{Option, none, ap, false, ◌==◌}
use multi_task_app.Mm.{take_user}
use multi_task_app.Alloc.{LibcFresh, Fresh, Allocator, Libc}
use multi_task_app.Mm.{Sys, Caller, as_built}
use multi_task_app.Mm.Trace.{NeverNull}
use multi_task_app.Mm.Interface.{mm_allocator, mm_libc, mm_malloc_lem}
use multi_task_app.Prelude.{◌++◌, occurrences-append}
use multi_task_app.Task.{Task}
use multi_task_app.AsyncQueue.{AsyncQueue}

abbrev pub highest : List ℕ → ℕ
highest [] = 0
highest (x ∷ xs) = if ltb (highest xs) x then x else highest xs

-- malloc gives the address after the highest one in use.
abbrev pub libc : List ℕ → ℕ → ℕ
libc live n = suc (highest live)

pub libc-NeverNull : NeverNull libc
libc-NeverNull live n = omega arith

abbrev pub main_thread : Caller
main_thread = record { pid = 10; tid = 20; comm = "main" }

abbrev pub allocator : Allocator
allocator = mm_allocator libc as_built main_thread "main" 1 libc-NeverNull

abbrev pub c_library : Libc allocator
c_library = mm_libc libc as_built main_thread "main" 1 libc-NeverNull

abbrev pub no_memory : Sys
no_memory = record { user = []; traces = []; os_mm_list = []; os_task_list = [] }

abbrev pub task : String → ℕ → ℕ → Task
task name tid q = record {
  self = 100;
  name = name;
  stack_size = 0;
  priority = 0;
  func = 0;
  arg = 0;
  tid = tid;
  pid = tid;
  q = q;
  head = [];
}

abbrev pub empty_queue : AsyncQueue
empty_queue = record {
  addr = 7;
  queue = some (record { addr = 5; nodes = [] });
  waiting = [];
  woken = [];
}

abbrev pub five : Sys
five = record no_memory { user = 5 ∷ [] }

pub above_highest : (xs : List ℕ) (a : ℕ) → highest xs < a → occurrences a xs ≡ 0
above_highest [] a h = refl
above_highest (x ∷ xs) a h =
    let lower : highest xs < a = ground (arith, h) in
    let ih = above_highest xs a lower in ground (arith, ih, h)

pub allocator-Fresh : Fresh allocator
allocator-Fresh n s =
    let p = libc (s.user ++ s.traces) n in
    let given = mm_malloc_lem libc as_built main_thread "main" 1 libc-NeverNull n s in
    let unused = above_highest (s.user ++ s.traces) p (omega arith) in
    rw given (omega (arith, unused, occurrences-append p s.user s.traces))

abbrev first_of : ℕ → Option (ℕ × Sys) → ℕ
first_of d none = d
first_of d (some (p, s)) = p

pub c_library-Fresh : LibcFresh allocator c_library
unfolding take_user
c_library-Fresh n p s t e =
    let q = libc (s.user ++ s.traces) n in
    let nonnull : (q == 0) ≡ false = ground arith in
    let given = rw nonnull at e in
    let same : q ≡ p = ap (λ o. first_of q o) given in
    let unused = above_highest (s.user ++ s.traces) q (omega arith) in
    rw (← same) (omega (arith, unused, occurrences-append q s.user s.traces))
