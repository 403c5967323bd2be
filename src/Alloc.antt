-- ===== src/Alloc.antt =====
-- The allocator that the containers are written against: MALLOC and FREE of
-- platform/os/include/os_mm.h, as os_mm.c provides them (Mm/Interface.antt fills this record).
use multi_task_app.Prelude.{ℕ, ◌+◌, ◌-◌, ◌≡◌, ◌≢◌, ◌==◌, bit, false, Option, some, arith}

-- `blocks s a` is the number of live blocks at address `a`. MALLOC returns only when the assert
-- of os_mm_malloc holds, so its result is an address other than NULL, which is 0.
pub record Allocator : Type 1 where
  pub Store : Type 0
  pub blocks : Store → ℕ → ℕ
  pub malloc : ℕ → Store → ℕ × Store
  pub free : ℕ → Store → Store
  pub malloc_nonnull : (n : ℕ) (s : Store) → (malloc n s).0 ≢ 0
  pub malloc_blocks :
      (n : ℕ) (s : Store) (a : ℕ) → blocks (malloc n s).1 a ≡ blocks s a + bit ((malloc n s).0 == a)
  pub free_blocks :
      (p : ℕ) (s : Store) (a : ℕ) → p ≢ 0 → blocks (free p s) a ≡ blocks s a - bit (p == a)

-- The check of MALLOC's result against NULL, which the callers make.
pub malloc_check : (m : Allocator) (n : ℕ) (s : m.Store) → ((m.malloc n s).0 == 0) ≡ false
malloc_check m n s = ground (arith, m.malloc_nonnull n s)

pub malloc-bit : (m : Allocator) (n : ℕ) (s : m.Store) → bit ((m.malloc n s).0 == 0) ≡ 0
malloc-bit m n s = rw (malloc_check m n s)

-- A block that is given back at once leaves the live blocks as they were.
pub blocks-free-malloc :
    (m : Allocator) (n : ℕ) (s : m.Store) (a : ℕ)
    → m.blocks (m.free (m.malloc n s).0 (m.malloc n s).1) a ≡ m.blocks s a
blocks-free-malloc m n s a = omega (
  arith,
  m.malloc_blocks n s a,
  m.free_blocks (m.malloc n s).0 (m.malloc n s).1 a (m.malloc_nonnull n s),
)

-- malloc and free of libc on the same memory, for the code that calls them and not MALLOC and FREE:
-- `none` where malloc returns NULL.
pub record Libc (m : Allocator) : Type 0 where
  pub libc_malloc : ℕ → m.Store → Option (ℕ × m.Store)
  pub libc_free : ℕ → m.Store → m.Store
  pub libc_malloc_nonnull : (n p : ℕ) (s t : m.Store) → libc_malloc n s ≡ some (p, t) → p ≢ 0
  pub libc_malloc_blocks :
      (n p : ℕ) (s t : m.Store) (a : ℕ)
      → libc_malloc n s ≡ some (p, t)
      → m.blocks t a ≡ m.blocks s a + bit (p == a)
  pub libc_free_blocks :
      (p : ℕ) (s : m.Store) (a : ℕ) → m.blocks (libc_free p s) a ≡ m.blocks s a - bit (p == a)

-- MALLOC, and malloc of libc, give an address where no block is live.
abbrev pub Fresh : Allocator → Type 0
Fresh m = (n : ℕ) (s : m.Store) → m.blocks s (m.malloc n s).0 ≡ 0

abbrev pub LibcFresh : (m : Allocator) → Libc m → Type 0
LibcFresh m l = (n p : ℕ) (s t : m.Store) → l.libc_malloc n s ≡ some (p, t) → m.blocks s p ≡ 0
