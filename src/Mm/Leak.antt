-- ===== src/Mm/Leak.antt =====
-- os_mm.c as the repository builds it: the traces that os_mm_malloc makes are never deleted.
use multi_task_app.Prelude.{
  ℕ, ◌+◌, ◌*◌, ◌≡◌, refl, Option, none, some, List, [], ◌∷◌, String, length, length-append, arith,
}
use multi_task_app.Mm.{Sys, Caller, Config, as_built, os_mm_malloc, os_mm_free}
use multi_task_app.Mm.Trace.{NeverNull, recorded, os_mm_malloc_lem}

-- Calls of MALLOC and FREE, by any threads.
pub data Request : Type 0 where
  mallocs : Caller → String → ℕ → ℕ → Request
  frees : Caller → ℕ → Request

abbrev state_of : Option (ℕ × Sys) → Option Sys
state_of none = none
state_of (some (p, s)) = some s

module _ (libc : List ℕ → ℕ → ℕ) where
  unfoldable pub serve : Config → List Request → Option Sys → Option Sys
  serve g rs none = none
  serve g [] (some s) = some s
  serve g (mallocs c func line n ∷ rs) (some s) =
      serve g rs (state_of (os_mm_malloc libc c func line n s))
  serve g (frees c addr ∷ rs) (some s) = serve g rs (some (os_mm_free g c addr s))

abbrev pub malloc_count : List Request → ℕ
malloc_count [] = 0
malloc_count (mallocs c func line n ∷ rs) = 1 + malloc_count rs
malloc_count (frees c addr ∷ rs) = malloc_count rs

free_keeps :
    (c : Caller) (addr : ℕ) (s : Sys)
    → (length (os_mm_free as_built c addr s).os_mm_list ≡ length s.os_mm_list)
      × (length (os_mm_free as_built c addr s).traces ≡ length s.traces)
unfolding os_mm_free
free_keeps c addr s = ground arith

-- As the repository builds os_mm_free, no record and no trace block is ever freed: after any
-- calls of MALLOC and FREE, os_mm_list has grown by one entry for each MALLOC and two more blocks
-- for each MALLOC are allocated, however many of the blocks were freed.
pub serve_leaks_traces :
    (libc : List ℕ → ℕ → ℕ) (rs : List Request) (s : Sys)
    → NeverNull libc
    → (t : Sys) × (serve libc as_built rs (some s) ≡ some t)
      × (length t.os_mm_list ≡ length s.os_mm_list + malloc_count rs)
      × (length t.traces ≡ length s.traces + 2 * malloc_count rs)
unfolding serve
serve_leaks_traces libc [] s h = (s, refl, omega arith, omega arith)
serve_leaks_traces libc (mallocs c func line n ∷ rs) s h =
    let s' = recorded libc c func line n s in
    let (t, done, list, traces) = serve_leaks_traces libc rs s' h in
    (
      t,
      rw (os_mm_malloc_lem libc h c func line n s, serve) done,
      omega (arith, list, length-append {0} s.os_mm_list),
      omega (arith, traces),
    )
serve_leaks_traces libc (frees c addr ∷ rs) s h =
    let (t, done, list, traces) = serve_leaks_traces libc rs (os_mm_free as_built c addr s) h in
    let (same, same') = free_keeps c addr s in
    (t, done, omega (arith, list, same), omega (arith, traces, same'))
