-- ===== src/Sample/Heard.antt =====
-- How the tasks of sample/task_show.c end.
use multi_task_app.Prelude.{
  ℕ, zero, suc, ◌+◌, ◌<◌, ◌≡◌, ◌⊎◌, refl, ap, inl, inr, ltb, true, false, Bool-cases, Option-cases,
  length, some, List, [], ◌∷◌, arith,
}
use multi_task_app.Alloc.{Allocator}
use multi_task_app.Msg.{Net, os_msg_recv_wait}
use multi_task_app.App.{task_routine_consumer}
use multi_task_app.App.Scheduled.{Line}
use multi_task_app.Sample.TaskShow.{
  Heard, ended as ends_with, blocked, faulted, logging, producer_round, producer_loop,
  task_routine_producer, consumer_loop, next_line, still_waits, task_routine_consumer1,
  task_routine_consumer2,
}

module _ (m : Allocator) where
  open m use {Store}

  -- So many rounds of the producer, from a count on.
  abbrev produced :
      ℕ
      → ℕ
      → (ℕ → Net Store → Net Store)
      → (ℕ → Net Store → Net Store)
      → ℕ
      → ℕ
      → Net Store
      → Net Store
  produced t t' others others' zero cnt n = n
  produced t t' others others' (suc k) cnt n =
      produced t t' others others' k (cnt + 1) (producer_round m t t' (others cnt) (others' cnt) n)

  loop-produced :
      (k rounds t t' cnt : ℕ) (others others' : ℕ → Net Store → Net Store) (n : Net Store)
      → cnt + k ≡ 6
      → k < rounds
      → producer_loop m rounds t t' others others' cnt n
        ≡ some (produced t t' others others' (suc k) cnt n)
  unfolding producer_loop
  loop-produced k zero t t' cnt others others' n h e = absurd (omega (arith, e))
  loop-produced zero (suc rounds) t t' cnt others others' n h e =
      let last : ltb 5 cnt ≡ true = ground (arith, h) in rw last refl
  loop-produced (suc k) (suc rounds) t t' cnt others others' n h e =
      let more : ltb 5 cnt ≡ false = ground (arith, h) in
      rw more (
        loop-produced k rounds t t' (cnt + 1) others others' _ (omega (arith, h))
          (omega (arith, e)))

  -- The producer ends after 7 rounds, whatever the other tasks do.
  producer_ends :
      (rounds t t' : ℕ) (others others' : ℕ → Net Store → Net Store) (n : Net Store)
      → 6 < rounds
      → task_routine_producer m rounds t t' others others' n
        ≡ some (produced t t' others others' 7 0 n)
  unfolding task_routine_producer
  producer_ends rounds t t' others others' n h =
      loop-produced 6 rounds t t' 0 others others' n (omega arith) h

  -- A consumer's loop has ended with so many lines; or it waits without an end and has logged fewer;
  -- or it has read through NULL.
  abbrev pub EndsWith : ℕ → Heard Store → Type 0
  EndsWith k r =
      ((lines : List Line) × (n : Net Store) × (r ≡ ends_with lines n) × (length lines ≡ k))
      ⊎ ((lines : List Line) × (n : Net Store) × (r ≡ blocked lines n) × (length lines < k))
      ⊎ (r ≡ faulted)

  EndsWith-logging :
      (k : ℕ) (line : Line) (r : Heard Store) → EndsWith k r → EndsWith (suc k) (logging line r)
  unfolding logging
  EndsWith-logging k line r (inl (lines, n, e, count)) =
      inl (line ∷ lines, n, rw e refl, ap suc count)
  EndsWith-logging k line r (inr (inl (lines, n, e, count))) =
      inr (inl (line ∷ lines, n, rw e refl, omega (arith, count)))
  EndsWith-logging k line r (inr (inr e)) = inr (inr (rw e refl))

  consumer_loop-EndsWith :
      (k limit rounds u cnt : ℕ) (others : ℕ → Net Store → Net Store) (n : Net Store)
      → cnt + k ≡ limit + 1
      → k < rounds
      → EndsWith (suc k) (consumer_loop m limit rounds u others cnt n)
  unfolding consumer_loop next_line
  consumer_loop-EndsWith k limit zero u cnt others n h e = absurd (omega (arith, e))
  consumer_loop-EndsWith zero limit (suc rounds) u cnt others n h e =
      let last : ltb limit cnt ≡ true = ground (arith, h) in
      let n' = others cnt (os_msg_recv_wait m u n).1 in
      elim (Bool-cases (still_waits m u n')) [
        | inl w ↦ rw w (inr (inl ([], n', refl, omega arith)))
        | inr w ↦ elim (Option-cases (task_routine_consumer m u n')) [
          | inl f ↦ rw (w, f) (inr (inr refl))
          | inr ((line, n''), f) ↦ rw (w, f, last) (inl (line ∷ [], n'', refl, refl))
        ]
      ]
  consumer_loop-EndsWith (suc k) limit (suc rounds) u cnt others n h e =
      let goes_on : ltb limit cnt ≡ false = ground (arith, h) in
      let n' = others cnt (os_msg_recv_wait m u n).1 in
      elim (Bool-cases (still_waits m u n')) [
        | inl w ↦ rw w (inr (inl ([], n', refl, omega arith)))
        | inr w ↦ elim (Option-cases (task_routine_consumer m u n')) [
          | inl f ↦ rw (w, f) (inr (inr refl))
          | inr ((line, n''), f) ↦
              rw (w, f, goes_on)
                (EndsWith-logging (suc k) line (consumer_loop m limit rounds u others (cnt + 1) n'')
                  (consumer_loop-EndsWith k limit rounds u (cnt + 1) others n'' (omega (arith, h))
                    (omega (arith, e))))
        ]
      ]

  -- The consumers of task_show.c log 5 and 4 lines and no more, whatever the other tasks do while
  -- they wait: with more than 4 rounds of the loop, consumer1 ends with 5 lines logged, or waits in
  -- os_msg_recv without an end after fewer lines, or reads through NULL; and so does consumer2, with
  -- 4 lines. So neither hears the 7 messages of the producer.
  pub consumers_end :
      (rounds u u' : ℕ) (others others' : ℕ → Net Store → Net Store) (n : Net Store)
      → 4 < rounds
      → EndsWith 5 (task_routine_consumer1 m rounds u others n)
        × EndsWith 4 (task_routine_consumer2 m rounds u' others' n)
  unfolding task_routine_consumer1 task_routine_consumer2
  consumers_end rounds u u' others others' n h = (
    consumer_loop-EndsWith 4 3 rounds u 0 others n (omega arith) h,
    consumer_loop-EndsWith 3 2 rounds u' 0 others' n (omega arith) (omega (arith, h)),
  )
