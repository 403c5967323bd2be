-- ===== src/Tests/Memory.antt =====
-- Tests of Mm.antt and its children.
use multi_task_app.Prelude.{◌+◌, ◌*◌, ◌≡◌, length, some, List, [], ◌∷◌}
use multi_task_app.Prelude.{ℕ, occurrences, refl}
use multi_task_app.Mm.Live.{shown, os_mm_show-serve}
use multi_task_app.Mm.{os_mm_show, Sys, as_built, both_on}
use multi_task_app.Mm.Leak.{Request, mallocs, frees, malloc_count, serve, serve_leaks_traces}
use multi_task_app.Tests.World.{libc, libc-NeverNull, main_thread, no_memory, task}

abbrev one_task : Sys
one_task = record no_memory { os_task_list = task "main" 20 0 ∷ [] }

abbrev requests : List Request
requests = mallocs main_thread "f" 3 16 ∷ frees main_thread 1 ∷ mallocs main_thread "f" 4 8 ∷ []

serve_leaks_traces_example :
    (t : Sys) × (serve libc as_built requests (some one_task) ≡ some t)
    × (length t.os_mm_list ≡ length one_task.os_mm_list + malloc_count requests)
    × (length t.traces ≡ length one_task.traces + 2 * malloc_count requests)
serve_leaks_traces_example = serve_leaks_traces libc requests one_task libc-NeverNull

os_mm_show-serve_example :
    (t : Sys) × (serve libc both_on requests (some one_task) ≡ some t)
    × ((a : ℕ) → occurrences a (shown (os_mm_show t)) ≡ occurrences a t.user)
unfolding os_mm_show
os_mm_show-serve_example = os_mm_show-serve libc requests one_task libc-NeverNull (λ a. refl)
