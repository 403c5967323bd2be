-- ===== src/Mm/Interface.antt =====
-- os_mm.c provides the allocator that the containers are written against.
use multi_task_app.Prelude.{
  ap, sym, Bool-cases, inl, inr, ◌∷◌, ◌++◌, ℕ, ◌+◌, ◌-◌, ◌≡◌, ◌≢◌, refl, ◌==◌, bit, Option, none,
  some, List, String, occurrences, erase, occurrences-erase, arith,
}
use multi_task_app.Alloc.{Allocator, Libc}
use multi_task_app.Mm.{Sys, Caller, Config, take_user, os_mm_malloc, os_mm_free}
use multi_task_app.Mm.Trace.{NeverNull, block, recorded, os_mm_malloc_lem}

pub free_count :
    (g : Config) (c : Caller) (p : ℕ) (s : Sys) (a : ℕ)
    → p ≢ 0
    → occurrences a (os_mm_free g c p s).user ≡ occurrences a s.user - bit (p == a)
unfolding os_mm_free
free_count g c p s a h = ground (arith, h, occurrences-erase a p s.user)

-- The result of MALLOC where it returns.
abbrev pub returned : Option (ℕ × Sys) → ℕ × Sys → ℕ × Sys
returned none d = d
returned (some r) d = r

module _ (libc : List ℕ → ℕ → ℕ) (g : Config) (c : Caller) (func : String) (line : ℕ) where
  abbrev pub mm_malloc : ℕ → Sys → ℕ × Sys
  mm_malloc n s = returned (os_mm_malloc libc c func line n s) (0, s)

  module _ (never_null : NeverNull libc) where
    pub mm_malloc_lem :
        (n : ℕ) (s : Sys) → mm_malloc n s ≡ (block libc n s, recorded libc c func line n s)
    mm_malloc_lem n s = rw (os_mm_malloc_lem libc never_null c func line n s) refl

    pub mm_malloc_nonnull : (n : ℕ) (s : Sys) → (mm_malloc n s).0 ≢ 0
    mm_malloc_nonnull n s = rw (mm_malloc_lem n s) (never_null _ _)

    pub mm_malloc_blocks :
        (n : ℕ) (s : Sys) (a : ℕ)
        → occurrences a (mm_malloc n s).1.user ≡ occurrences a s.user + bit ((mm_malloc n s).0 == a)
    mm_malloc_blocks n s a = rw (mm_malloc_lem n s) (omega arith)

    -- MALLOC and FREE, as a thread calls them at one place of the code, while libc has memory.
    abbrev pub mm_allocator : Allocator
    mm_allocator = record {
      Store = Sys;
      blocks = λ s a. occurrences a s.user;
      malloc = mm_malloc;
      free = λ p s. os_mm_free g c p s;
      malloc_nonnull = mm_malloc_nonnull;
      malloc_blocks = mm_malloc_blocks;
      free_blocks = λ p s a h. free_count g c p s a h;
    }

    -- malloc and free of libc beside them, on the blocks of the callers.
    pub libc_block :
        (n p : ℕ) (s t : Sys)
        → take_user libc n s ≡ some (p, t)
        → (p ≢ 0) × ((a : ℕ) → occurrences a t.user ≡ occurrences a s.user + bit (p == a))
    unfolding take_user
    libc_block n p s t e =
        let q = libc (s.user ++ s.traces) n in
        elim (Bool-cases (q == 0)) [
          | inl z ↦ absurd (ground (arith, never_null (s.user ++ s.traces) n, z))
          | inr z ↦
              let same : some (q, record s { user = q ∷ s.user }) ≡ some (p, t) = rw z at e in
              let whole : (q, record s { user = q ∷ s.user }) ≡ (p, t) =
                ap (λ o. returned o (p, t)) same in
              rw (sym (ap (λ r. r.0) whole), sym (ap (λ r. r.1.user) whole))
                (never_null _ _, λ a. omega arith)
        ]

    abbrev pub mm_libc : Libc mm_allocator
    mm_libc = record {
      libc_malloc = take_user libc;
      libc_free = λ p s. record s { user = erase p s.user };
      libc_malloc_nonnull = λ n p s t e. (libc_block n p s t e).0;
      libc_malloc_blocks = λ n p s t a e. (libc_block n p s t e).1 a;
      libc_free_blocks = λ p s a. occurrences-erase a p s.user;
    }
