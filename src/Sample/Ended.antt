-- ===== src/Sample/Ended.antt =====
-- How the tasks and the main function of sample/sample.c end.
use multi_task_app.Prelude.{
  ℕ, zero, suc, ◌+◌, ◌-◌, ◌*◌, ◌≡◌, ◌≢◌, ◌⊎◌, inl, inr, Option, List, ◌<◌, refl, ◌∙◌, ap, ◌==◌, ltb,
  bit, true, false, some, [], ◌∷◌, String, Bool, arith,
}
use multi_task_app.Alloc.{Allocator, Libc, malloc_check, blocks-free-malloc}
use multi_task_app.Msg.{Net}
use multi_task_app.Task.Life.{Params}
use multi_task_app.App.{create_all}
use multi_task_app.App.Blocks.{Grown}
use multi_task_app.Sample.{
  Pointers, main_params, growing, normal_loop, free_given, free_in_round, main_loop, main, program,
  task_routine_no1, task_routine_no2, task_routine_dummy, task_routine_normal,
}

-- So many rounds, and `r` more.
abbrev more : ℕ → ℕ → ℕ
more zero r = r
more (suc n) r = suc (more n r)

more-add : (n r : ℕ) → more n r ≡ n + r
more-add zero r = omega arith
more-add (suc n) r = omega (arith, more-add n r)

-- The test that ends a loop, in its last round and before.
ends_now : (limit cnt : ℕ) → cnt ≡ limit → ltb limit (cnt + 1) ≡ true
ends_now limit cnt h = ground (arith, h)

goes_on : (k limit cnt : ℕ) → cnt + suc k ≡ limit → ltb limit (cnt + 1) ≡ false
goes_on k limit cnt h = ground (arith, h)

module _ (m : Allocator) where
  open m use {Store, blocks, malloc}

  growing-Grown :
      (k unit limit rounds cnt : ℕ) (s : Store)
      → cnt + k ≡ limit
      → k < rounds
      → (t : Store) × (growing m unit limit rounds cnt s ≡ some t) × Grown m (suc k) s t
  unfolding growing
  growing-Grown k unit limit zero cnt s h e = absurd (omega (arith, e))
  growing-Grown zero unit limit (suc rounds) cnt s h e =
      let (p, s') = malloc ((cnt + 1) * unit) s in
      let now = ends_now limit cnt (omega (arith, h)) in
      rw now (s', refl, (p ∷ [], refl, λ a. omega (arith, m.malloc_blocks ((cnt + 1) * unit) s a)))
  growing-Grown (suc k) unit limit (suc rounds) cnt s h e =
      let (p, s') = malloc ((cnt + 1) * unit) s in
      let (t, ends, rest) =
        growing-Grown k unit limit rounds (cnt + 1) s' (omega (arith, h)) (omega (arith, e)) in
      let (ps, count, grown) = rest in
      rw (goes_on k limit cnt h) (
        t,
        ends,
        (p ∷ ps, ap suc count, λ a. omega (arith, grown a, m.malloc_blocks ((cnt + 1) * unit) s a)),
      )

  free_given-malloc :
      (n : ℕ) (s : Store) (a : ℕ)
      → blocks (free_given m (malloc n s).0 (malloc n s).1) a ≡ blocks s a
  unfolding free_given
  free_given-malloc n s a = rw (malloc_check m n s) (blocks-free-malloc m n s a)

  normal_loop-blocks :
      (k rounds cnt : ℕ) (s : Store)
      → cnt + k ≡ 15
      → k < rounds
      → (t : Store) × (normal_loop m rounds cnt s ≡ some t) × ((a : ℕ) → blocks t a ≡ blocks s a)
  unfolding normal_loop
  normal_loop-blocks k zero cnt s h e = absurd (omega (arith, e))
  normal_loop-blocks zero (suc rounds) cnt s h e =
      rw (ends_now 15 cnt (omega (arith, h))) (_, refl, free_given-malloc ((cnt + 1) * 2048) s)
  normal_loop-blocks (suc k) (suc rounds) cnt s h e =
      let (p, u) = malloc ((cnt + 1) * 2048) s in
      let (t, ends, same) =
        normal_loop-blocks k rounds (cnt + 1) (free_given m p u) (omega (arith, h))
          (omega (arith, e)) in
      rw (goes_on k 15 cnt h) (t, ends, λ a. same a ∙ free_given-malloc ((cnt + 1) * 2048) s a)

  -- The tasks end, and leave what they do not free: with more than 20 rounds, no1 ends with 6
  -- blocks more, no2 with 11 and dummy with 21, and normal with as many live blocks at each address
  -- as before.
  pub task_routines_end :
      (rounds : ℕ) (s : Store)
      → 20 < rounds
      → ((t : Store) × (task_routine_no1 m rounds s ≡ some t) × Grown m 6 s t)
        × ((t : Store) × (task_routine_no2 m rounds s ≡ some t) × Grown m 11 s t)
        × ((t : Store) × (task_routine_dummy m rounds s ≡ some t) × Grown m 21 s t)
        × ((t : Store) × (task_routine_normal m rounds s ≡ some t)
            × ((a : ℕ) → blocks t a ≡ blocks s a))
  unfolding task_routine_no1 task_routine_no2 task_routine_dummy task_routine_normal
  task_routines_end rounds s h = (
    growing-Grown 5 16 5 rounds 0 s (omega arith) (omega (arith, h)),
    growing-Grown 10 512 10 rounds 0 s (omega arith) (omega (arith, h)),
    growing-Grown 20 64 20 rounds 0 s (omega arith) h,
    normal_loop-blocks 15 rounds 0 s (omega arith) (omega (arith, h)),
  )

  -- The three pointers are freed, each once.
  abbrev pub FreesAll : ℕ → ℕ → Type 0
  FreesAll limit rounds =
      (ps : Pointers) (s : Store)
      → main_loop m limit rounds 0 ps s
        ≡ some (free_given m ps.p3 (free_given m ps.p2 (free_given m ps.p1 s)))

  eleven_rounds : (r : ℕ) → FreesAll 10 (more 11 r)
  unfolding main_loop free_in_round
  eleven_rounds r ps s = refl

  twenty_one_rounds : (r : ℕ) → FreesAll 20 (more 21 r)
  unfolding main_loop free_in_round
  twenty_one_rounds r ps s = refl

  pub main_loop_lem :
      (limit rounds : ℕ) → (limit ≡ 10) ⊎ (limit ≡ 20) → limit < rounds → FreesAll limit rounds
  main_loop_lem limit rounds (inl e) h =
      let enough : rounds ≡ more 11 (rounds - 11) =
        omega (arith, more-add 11 (rounds - 11), h, e) in
      rw (e, enough) (eleven_rounds (rounds - 11))
  main_loop_lem limit rounds (inr e) h =
      let enough : rounds ≡ more 21 (rounds - 21) =
        omega (arith, more-add 21 (rounds - 21), h, e) in
      rw (e, enough) (twenty_one_rounds (rounds - 21))

  free_given-blocks :
      (p : ℕ) (s : Store) (a : ℕ) → p ≢ 0 → blocks (free_given m p s) a ≡ blocks s a - bit (p == a)
  unfolding free_given
  free_given-blocks p s a h =
      let real : (p == 0) ≡ false = ground (arith, h) in rw real (m.free_blocks p s a h)

  module _ (l : Libc m) where
    -- The end of a main function: the tasks are those that it created, and the blocks that its
    -- three pointers had are freed.
    abbrev pub Ends : List Params → (Params → Bool) → Net Store → Option (Net Store) → Type 0
    Ends params created n result =
        let (p1, s1) = malloc 10 n.store in
        let (p2, s2) = malloc 20 s1 in
        let (p3, s3) = malloc 30 s2 in
        let n' = create_all m l created params (record n { store = s3 }) in
        (end : Net Store) × (result ≡ some end)
        × (end.tasks ≡ n'.tasks)
        × ((a : ℕ)
            → blocks end.store a
              ≡ blocks n'.store a - bit (p1 == a) - bit (p2 == a) - bit (p3 == a))

    pub program-Ends :
        (limit : ℕ) (params : List Params) (created : Params → Bool) (rounds : ℕ) (n : Net Store)
        → (limit ≡ 10) ⊎ (limit ≡ 20)
        → limit < rounds
        → Ends params created n (program m l limit params created rounds n)
    unfolding program
    program-Ends limit params created rounds n e h =
        let (p1, s1) = malloc 10 n.store in
        let (p2, s2) = malloc 20 s1 in
        let (p3, s3) = malloc 30 s2 in
        let n' = create_all m l created params (record n { store = s3 }) in
        let f1 = free_given m p1 n'.store in
        let f2 = free_given m p2 f1 in
        (
          record n' { store = free_given m p3 f2 },
          rw (main_loop_lem limit rounds e h) refl,
          refl,
          λ a. omega (
            arith,
            free_given-blocks p3 f2 a (m.malloc_nonnull 30 s2),
            free_given-blocks p2 f1 a (m.malloc_nonnull 20 s1),
            free_given-blocks p1 n'.store a (m.malloc_nonnull 10 n.store),
          ),
        )

    -- main of sample.c ends, and frees each of its three blocks once: with more than 10 rounds of
    -- its loop, it comes to its end with the tasks that it created, and at each address there are
    -- as many live blocks as after their creation, less the blocks that p1, p2 and p3 had there.
    pub main-Ends :
        (routine : String → ℕ) (created : Params → Bool) (rounds : ℕ) (n : Net Store)
        → 10 < rounds
        → Ends (main_params routine) created n (main m l routine created rounds n)
    unfolding main
    main-Ends routine created rounds n h =
        program-Ends 10 (main_params routine) created rounds n (inl refl) h
