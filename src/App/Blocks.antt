-- ===== src/App/Blocks.antt =====
-- The memory that tasks of init/main.c use.
use multi_task_app.Prelude.{
  ℕ, zero, suc, ◌+◌, ◌≡◌, ◌*◌, refl, occurrences, length, List, [], ◌∷◌, arith, ◌∙◌, ap,
}
use multi_task_app.Alloc.{Allocator, malloc_check, blocks-free-malloc}
use multi_task_app.App.{task_routine_no1, task_routine_no2, task_routine_normal}

module _ (m : Allocator) where
  open m use {Store, blocks, malloc}

  -- The three tasks after some rounds each: the store, where the rounds of no1 and no2 come in any
  -- order, and those of normal one after the other.
  abbrev pub Grown : ℕ → Store → Store → Type 0
  Grown k s t =
      (ps : List ℕ) × (length ps ≡ k) × ((a : ℕ) → blocks t a ≡ blocks s a + occurrences a ps)

  abbrev pub rounds : (Store → Store) → ℕ → Store → Store
  rounds round zero s = s
  rounds round (suc k) s = rounds round k (round s)

  abbrev pub normal_rounds : ℕ → ℕ → Store → Store
  normal_rounds zero cnt s = s
  normal_rounds (suc k) cnt s =
      let (cnt', s') = task_routine_normal m cnt s in normal_rounds k cnt' s'

  rounds-Grown : (size k : ℕ) (s : Store) → Grown k s (rounds (λ t. (malloc size t).1) k s)
  rounds-Grown size zero s = ([], refl, λ a. omega arith)
  rounds-Grown size (suc k) s =
      let (p, s') = malloc size s in
      let (ps, count, grown) = rounds-Grown size k s' in
      (p ∷ ps, ap suc count, λ a. omega (arith, grown a, m.malloc_blocks size s a))

  normal_rounds-blocks :
      (k cnt : ℕ) (s : Store) (a : ℕ) → blocks (normal_rounds k cnt s) a ≡ blocks s a
  unfolding task_routine_normal
  normal_rounds-blocks zero cnt s a = refl
  normal_rounds-blocks (suc k) cnt s a =
      let round : blocks (task_routine_normal m cnt s).1 a ≡ blocks s a =
        rw (malloc_check m ((cnt + 1) * 2048) s) (blocks-free-malloc m ((cnt + 1) * 2048) s a) in
      normal_rounds-blocks k _ _ a ∙ round

  -- The tasks no1 and no2 lose a block in each round, and the task normal loses none: after k
  -- rounds of no1, and of no2, there are k blocks more, and after k rounds of normal there are as
  -- many live blocks at each address as before.
  pub task_rounds_blocks :
      (k cnt : ℕ) (s : Store)
      → Grown k s (rounds (task_routine_no1 m) k s)
        × Grown k s (rounds (task_routine_no2 m) k s)
        × ((a : ℕ) → blocks (normal_rounds k cnt s) a ≡ blocks s a)
  unfolding task_routine_no1 task_routine_no2
  task_rounds_blocks k cnt s =
      (rounds-Grown 16 k s, rounds-Grown 512 k s, normal_rounds-blocks k cnt s)
