-- ===== src/Sample.antt =====
-- sample/sample.c: a program whose tasks allocate for a while and end.
pub mod Ended
pub mod TaskShow
pub mod Heard
pub mod Reports
pub mod Reported
use multi_task_app.Prelude.{
  ℕ, zero, suc, ◌+◌, ◌*◌, ◌==◌, ltb, if◌then◌else◌, Bool, Option, none, some, List, [], ◌∷◌, map,
  String,
}
use multi_task_app.Alloc.{Allocator, Libc}
use multi_task_app.Msg.{Net}
use multi_task_app.Task.Life.{Params}
use multi_task_app.App.{create_all}

-- The names that main gives its tasks, in order.
abbrev pub task_names : List String
task_names = "no1" ∷ "no2" ∷ "normal" ∷ "dummy" ∷ []

abbrev pub main_params : (String → ℕ) → List Params
main_params routine =
    map (λ name. record { name = name; stack_size = 0; priority = 0; func = routine name; arg = 0 })
      task_names

-- The variables p1, p2 and p3 of main.
pub record Pointers : Type 0 where
  pub p1 : ℕ
  pub p2 : ℕ
  pub p3 : ℕ

module _ (m : Allocator) where
  open m use {Store, malloc, free}

  -- The loop that task_routine_no1, _no2 and _dummy share, up to so many rounds: `none` where it
  -- has not ended.
  unfoldable pub growing : ℕ → ℕ → ℕ → ℕ → Store → Option Store
  growing unit limit zero cnt s = none
  growing unit limit (suc rounds) cnt s =
      let s' = (malloc ((cnt + 1) * unit) s).1 in
      let rest = growing unit limit rounds (cnt + 1) s' in
      if ltb limit (cnt + 1) then some s' else rest

  unfoldable pub task_routine_no1 : ℕ → Store → Option Store
  task_routine_no1 rounds s = growing 16 5 rounds 0 s

  unfoldable pub task_routine_no2 : ℕ → Store → Option Store
  task_routine_no2 rounds s = growing 512 10 rounds 0 s

  unfoldable pub task_routine_dummy : ℕ → Store → Option Store
  task_routine_dummy rounds s = growing 64 20 rounds 0 s

  -- FREE of a pointer that may be NULL.
  unfoldable pub free_given : ℕ → Store → Store
  free_given p s = if p == 0 then s else free p s

  -- The loop of task_routine_normal.
  unfoldable pub normal_loop : ℕ → ℕ → Store → Option Store
  unfolding free_given
  normal_loop zero cnt s = none
  normal_loop (suc rounds) cnt s =
      let (p, t) = malloc ((cnt + 1) * 2048) s in
      let s' = free_given p t in
      let rest = normal_loop rounds (cnt + 1) s' in if ltb 15 (cnt + 1) then some s' else rest

  unfoldable pub task_routine_normal : ℕ → Store → Option Store
  unfolding normal_loop
  task_routine_normal rounds s = normal_loop rounds 0 s

  -- What a round of main's loop frees: one of the pointers, which is NULL from then on.
  unfoldable pub free_in_round : ℕ → Pointers → Store → Pointers × Store
  unfolding free_given
  free_in_round cnt ps s =
      if cnt == 3
      then (record ps { p1 = 0 }, free_given ps.p1 s)
      else if cnt == 6
      then (record ps { p2 = 0 }, free_given ps.p2 s)
      else if cnt == 9
      then (record ps { p3 = 0 }, free_given ps.p3 s)
      else (ps, s)

  -- The loop of main, which ends behind the round in which `cnt` is more than the limit: 10 in
  -- sample.c, 20 in task_show.c. os_task_mm_show prints, and gives back what it allocates.
  unfoldable pub main_loop : ℕ → ℕ → ℕ → Pointers → Store → Option Store
  unfolding free_in_round
  main_loop limit zero cnt ps s = none
  main_loop limit (suc rounds) cnt ps s =
      let (ps', s') = free_in_round cnt ps s in
      let rest = main_loop limit rounds (cnt + 1) ps' s' in
      if ltb limit (cnt + 1) then some s' else rest

  module _ (l : Libc m) where
    with_store : Net Store → Option Store → Option (Net Store)
    with_store n none = none
    with_store n (some s) = some (record n { store = s })

    -- A main function with its tasks, and so many rounds of its loop; the tasks do not run
    -- meanwhile.
    unfoldable pub program : ℕ → List Params → (Params → Bool) → ℕ → Net Store → Option (Net Store)
    unfolding with_store
    program limit params created rounds n =
        let (p1, s1) = malloc 10 n.store in
        let (p2, s2) = malloc 20 s1 in
        let (p3, s3) = malloc 30 s2 in
        let n' = create_all m l created params (record n { store = s3 }) in
        with_store n' (main_loop limit rounds 0 (record { p1 = p1; p2 = p2; p3 = p3 }) n'.store)

    unfoldable pub main : (String → ℕ) → (Params → Bool) → ℕ → Net Store → Option (Net Store)
    unfolding program
    main routine created rounds n = program 10 (main_params routine) created rounds n
