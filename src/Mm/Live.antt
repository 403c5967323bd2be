-- ===== src/Mm/Live.antt =====
-- os_mm.c where it is compiled to delete the traces: os_mm_show shows the blocks that are live.
use multi_task_app.Prelude.{
  ℕ, ◌-◌, ◌≡◌, refl, sym, ◌∙◌, ap, ◌==◌, bit, Bool-cases, inl, inr, Option, none, some, List, [],
  ◌∷◌, ◌++◌, map, String, occurrences, occurrences-append, occurrences-erase, arith,
}
use multi_task_app.Task.{MmNode, unlink}
use multi_task_app.Mm.{Sys, Caller, both_on, os_mm_free, os_mm_show}
use multi_task_app.Mm.Trace.{NeverNull, entry, block, recorded, list_entry, os_mm_malloc_lem}
use multi_task_app.Mm.Leak.{Request, mallocs, frees, serve}

-- The addresses of the blocks that entries record.
abbrev pub traced : List MmNode → List ℕ
traced = map (λ n. n.addr)

-- The column "[addr]" of what os_mm_show prints.
abbrev pub shown : List (Option String × ℕ × ℕ × String × ℕ × ℕ × ℕ) → List ℕ
shown [] = []
shown ((task, tid, pid, func, line, addr, size) ∷ rows) = addr ∷ shown rows

shown-traced :
    (ns : List MmNode)
    → shown (map (λ n. (n.os_task_name, n.tid, n.pid, n.func, n.line, n.addr, n.size)) ns)
      ≡ traced ns
shown-traced [] = refl
shown-traced (n ∷ ns) = ap (λ l. n.addr ∷ l) (shown-traced ns)

traced-append : (ns ks : List MmNode) → traced (ns ++ ks) ≡ traced ns ++ traced ks
traced-append [] ks = refl
traced-append (n ∷ ns) ks = ap (λ l. n.addr ∷ l) (traced-append ns ks)

occurrences-unlink :
    (a p : ℕ) (ns : List MmNode)
    → occurrences a (traced (unlink p ns).1) ≡ occurrences a (traced ns) - bit (p == a)
unfolding unlink
occurrences-unlink a p [] = omega arith
occurrences-unlink a p (n ∷ ns) =
    let rest = occurrences-unlink a p ns in
    elim (Bool-cases (p == n.addr)) [
      | inl e ↦ rw e (ground (arith, e))
      | inr e ↦ rw e (ground (arith, e, rest))
    ]

-- The list has an entry for each live block, and no other.
abbrev Mirrors : Sys → Type 0
Mirrors s = (a : ℕ) → occurrences a (traced s.os_mm_list) ≡ occurrences a s.user

free-Mirrors : (c : Caller) (addr : ℕ) (s : Sys) → Mirrors s → Mirrors (os_mm_free both_on c addr s)
unfolding os_mm_free
free-Mirrors c addr s h a = elim (Bool-cases (addr == 0)) [
  | inl e ↦ rw e (h a)
  | inr e ↦
      rw e (
        omega (arith, occurrences-unlink a addr s.os_mm_list, occurrences-erase a addr s.user, h a))
]

malloc-Mirrors :
    (libc : List ℕ → ℕ → ℕ) (c : Caller) (func : String) (line n : ℕ) (s : Sys)
    → Mirrors s
    → Mirrors (recorded libc c func line n s)
malloc-Mirrors libc c func line n s h a =
    let added = entry c func line n (block libc n s) (list_entry libc n s) none ∷ [] in
    omega (
      arith,
      h a,
      ap (occurrences a) (traced-append s.os_mm_list added),
      occurrences-append a (traced s.os_mm_list) (traced added),
    )

-- Where os_mm_free is compiled to delete the traces, os_mm_show shows the live blocks: after any
-- calls of MALLOC and FREE by any threads, while libc has memory, the addresses in its rows are
-- those of the blocks that are live, each as often, if the list was so at first.
pub os_mm_show-serve :
    (libc : List ℕ → ℕ → ℕ) (rs : List Request) (s : Sys)
    → NeverNull libc
    → ((a : ℕ) → occurrences a (shown (os_mm_show s)) ≡ occurrences a s.user)
    → (t : Sys) × (serve libc both_on rs (some s) ≡ some t)
      × ((a : ℕ) → occurrences a (shown (os_mm_show t)) ≡ occurrences a t.user)
unfolding serve os_mm_show
os_mm_show-serve libc [] s h v = (s, refl, v)
os_mm_show-serve libc (mallocs c func line n ∷ rs) s h v =
    let s' = recorded libc c func line n s in
    let w =
      malloc-Mirrors libc c func line n s
        (λ a. ap (occurrences a) (sym (shown-traced s.os_mm_list)) ∙ v a) in
    let (t, done, rest) =
      os_mm_show-serve libc rs s' h (λ a. ap (occurrences a) (shown-traced s'.os_mm_list) ∙ w a) in
    (t, rw (os_mm_malloc_lem libc h c func line n s, serve) done, rest)
os_mm_show-serve libc (frees c addr ∷ rs) s h v =
    let s' = os_mm_free both_on c addr s in
    let w =
      free-Mirrors c addr s (λ a. ap (occurrences a) (sym (shown-traced s.os_mm_list)) ∙ v a) in
    os_mm_show-serve libc rs s' h (λ a. ap (occurrences a) (shown-traced s'.os_mm_list) ∙ w a)
