-- ===== src/File/Whole.antt =====
-- Whole reads by os_file_read2, and os_trace2file, of os_file.c.
use multi_task_app.Prelude.{
  ℕ, zero, suc, ◌+◌, ◌-◌, ◌^◌, ◌≤◌, ◌<◌, ◌≡◌, ◌⊎◌, refl, ◌∙◌, ap, inl, inr, ◌==◌, ltb, true,
  Bool-cases, length, length-append, take, drop, length-drop, length-take, length-take_le, some,
  List, [], ◌∷◌, ◌++◌, append_assoc, append-nil, arith,
}
use multi_task_app.File.{
  Outcome, moved, interrupted, failed, u32, read_loop, os_file_read, count, os_file_read2, Kernel,
  success, os_file_write_str, traced, trace_buf, os_trace2file,
}
use multi_task_app.File.Transfer.{
  AllMove, moves, os_file_write_complete, not_negative, mod-eq, take_more,
}

add_zero : (n : ℕ) → n + 0 ≡ n
add_zero n = omega arith

zero_add : (n : ℕ) → 0 + n ≡ n
zero_add n = omega arith

-- The calls of read answer as on a file with `left` bytes to come and room for `room`: none fails,
-- each moves something unless nothing is left, and no more than there is and there is room for.
abbrev pub AllRead : List Outcome → ℕ → ℕ → Type 0
AllRead [] left room = Unit {0}
AllRead (interrupted ∷ os) left room = AllRead os left room
AllRead (failed ∷ os) left room = ⊥
AllRead (moved r ∷ os) left room =
    (room ≡ 0)
    ⊎ ((r ≤ left) × (r ≤ room) × ((0 < r) ⊎ (left ≡ 0)) × AllRead os (left - r) (room - r))

empty : (xs : List ℕ) → length xs ≡ 0 → xs ≡ []
empty [] h = refl
empty (x ∷ xs) h = absurd (omega (arith, h))

-- A piece of `r` bytes, and what comes behind it.
two_pieces :
    (r room : ℕ) (file : List ℕ)
    → r ≤ room
    → take r file ++ take (room - r) (drop r file) ≡ take room file
two_pieces r room file h =
    let all : r + (room - r) ≡ room = omega (arith, h) in
    take_more r (room - r) file ∙ ap (λ n. take n file) all

read_loop_complete :
    (os : List Outcome) (file : List ℕ) (room nread : ℕ) (out : List ℕ)
    → AllRead os (length file) room
    → room ≤ moves os
    → nread + room < u32
    → read_loop os file room nread out
      ≡ some (record { ret = nread + length (take room file); bytes = out ++ take room file })
unfolding read_loop
read_loop_complete os file zero nread out h e l = rw (append-nil out, add_zero nread) refl
read_loop_complete [] file (suc room) nread out h e l = absurd (omega (arith, e))
read_loop_complete (interrupted ∷ os) file (suc room) nread out h e l =
    read_loop_complete os file (suc room) nread out h e l
read_loop_complete (failed ∷ os) file (suc room) nread out h e l = absurd h
read_loop_complete (moved r ∷ os) file (suc room) nread out (inl z) e l = absurd (omega (arith, z))
read_loop_complete (moved r ∷ os) file (suc room) nread out (inr (fit, within, c, h)) e l =
    elim (Bool-cases (r == 0)) [
      | inl z ↦
          let at_end : length file ≡ 0 = ground (arith, z, c) in
          rw (z, empty file at_end, append-nil out, add_zero nread) refl
      | inr z ↦
          let left = length-drop r file in
          let pieces = two_pieces r (suc room) file within in
          let rest =
            read_loop_complete os (drop r file) (suc room - r) (nread + r) (out ++ take r file)
              (rw left h) (ground (arith, e, z)) (omega (arith, l, within)) in
          let lengths = length-append {0} (take r file) (take (suc room - r) (drop r file)) in
          let total : nread + r + length (take (suc room - r) (drop r file))
              ≡ nread + length (take (suc room) file) =
            omega (arith, lengths, ap length pieces, length-take r file fit) in
          rw (z, mod-eq nread r (omega (arith, l, within)), rest)
            (λ i. some (record {
              ret = total i;
              bytes =
                  (append_assoc out (take r file) (take (suc room - r) (drop r file))
                      ∙ ap (λ x. out ++ x) pieces)
                    i;
            }))
    ]

in_range : (n : ℕ) → n < 2 ^ 31 → ltb n (2 ^ 31) ≡ true
in_range n h = ground (arith, h)

-- os_file_read2 reads the start of a file: if open succeeds, no call of read fails or moves nothing
-- before the end of the file, none moves more than is left or was asked for, and there are as many
-- calls that move bytes as `len`, then it puts the first `len` bytes of the file at `data`, or the
-- whole file if it is shorter, and returns their number, for a `len` of an int.
pub os_file_read2_complete :
    (os : List Outcome) (file : List ℕ) (len : ℕ)
    → AllRead os (length file) len
    → len ≤ moves os
    → len < 2 ^ 31
    → os_file_read2 0 os file len ≡ some (count (length (take len file)), take len file)
unfolding os_file_read2 os_file_read
os_file_read2_complete os file len h e l =
    let small = length-take_le len file in
    rw
      (
        read_loop_complete os file len 0 [] h e (omega (arith, l)),
        zero_add (length (take len file)),
        in_range (length (take len file)) (omega (arith, small, l)),
      )
      refl

-- If open and close succeed, and write makes progress until all is written, os_trace2file of a text
-- of at most 4094 bytes appends exactly the text and a newline to the file.
pub os_trace2file_traces :
    (k : Kernel) (file text : List ℕ)
    → k.opens ≡ true
    → k.closes ≡ true
    → AllMove k.writes (length (text ++ 10 ∷ []))
    → length (text ++ 10 ∷ []) ≤ moves k.writes
    → length text < trace_buf - 1
    → os_trace2file k (some file) text ≡ some (traced (some (success, file ++ (text ++ 10 ∷ []))))
unfolding os_trace2file os_file_write_str
os_trace2file_traces k file text o c h e short =
    let line = text ++ 10 ∷ [] in
    let long = length-append {0} text (10 ∷ []) in
    let fits : ltb (length text) (trace_buf - 1) ≡ true = ground (arith, short) in
    let written = os_file_write_complete k.writes line h e (omega (arith, long, short)) in
    rw (fits, o, written, c, not_negative (length line)) refl
