-- ===== src/File/Transfer.antt =====
-- What the loops of os_file.c move, whatever the kernel answers.
use native.Mathlib.Nat.{zero-add, suc-add, add-zero}
use multi_task_app.Prelude.{
  ℕ, zero, suc, ◌+◌, ◌-◌, ◌%◌, ◌≤◌, ◌<◌, ◌≡◌, ◌⊎◌, refl, ◌∙◌, ap, sym, inl, inr, ◌==◌, ltb,
  Bool-cases, true, false, length, take, drop, take-append-drop, length-drop, some, List, [], ◌∷◌,
  ◌++◌, append_assoc, append-nil, arith,
}
use multi_task_app.File.{
  Outcome, moved, interrupted, failed, u32, minus_one, Done, write_loop, os_file_write, Kernel,
  success, os_file_append,
}

-- The kernel moves no more than was asked for, while `n` bytes are left.
abbrev pub AllFit : List Outcome → ℕ → Type 0
AllFit [] n = Unit {0}
AllFit (interrupted ∷ os) n = AllFit os n
AllFit (failed ∷ os) n = AllFit os n
AllFit (moved r ∷ os) n = (r ≤ n) × AllFit os (n - r)

-- Moreover no call fails, and none moves nothing.
abbrev pub AllMove : List Outcome → ℕ → Type 0
AllMove [] n = Unit {0}
AllMove (interrupted ∷ os) n = AllMove os n
AllMove (failed ∷ os) n = ⊥
AllMove (moved r ∷ os) n = (n ≡ 0) ⊎ ((0 < r) × (r ≤ n) × AllMove os (n - r))

-- The calls that move bytes.
abbrev pub moves : List Outcome → ℕ
moves [] = 0
moves (interrupted ∷ os) = moves os
moves (failed ∷ os) = moves os
moves (moved r ∷ os) = 1 + moves os

pub mod-eq : (a b : ℕ) → a + b < u32 → (a + b) % u32 ≡ a + b
mod-eq a b h = omega (arith, h)

take_nil : (k : ℕ) → ◌≡◌ {A = List ℕ} (take k []) []
take_nil zero = refl
take_nil (suc k) = refl

pub take_more : (r k : ℕ) (xs : List ℕ) → take r xs ++ take k (drop r xs) ≡ take (r + k) xs
take_more zero k xs = rw zero-add refl
take_more (suc r) k [] = rw suc-add (take_nil k)
take_more (suc r) k (x ∷ xs) = rw suc-add (ap (◌∷◌ x) (take_more r k xs))

write_loop_complete :
    (os : List Outcome) (buf : List ℕ) (nwritten : ℕ) (out : List ℕ)
    → AllMove os (length buf)
    → length buf ≤ moves os
    → nwritten + length buf < u32
    → write_loop os buf nwritten out
      ≡ some (record { ret = nwritten + length buf; bytes = out ++ buf })
unfolding write_loop
write_loop_complete os [] nwritten out h e l = rw (append-nil, add-zero) refl
write_loop_complete [] (b ∷ buf) nwritten out h e l = absurd (omega arith)
write_loop_complete (interrupted ∷ os) (b ∷ buf) nwritten out h e l =
    write_loop_complete os (b ∷ buf) nwritten out h e l
write_loop_complete (failed ∷ os) (b ∷ buf) nwritten out h e l = absurd h
write_loop_complete (moved r ∷ os) (b ∷ buf) nwritten out (inl z) e l = absurd (omega (arith, z))
write_loop_complete (moved r ∷ os) (b ∷ buf) nwritten out (inr (p, fit, h)) e l =
    let nonzero : (r == 0) ≡ false = ground arith in
    let left = length-drop r (b ∷ buf) in
    let rest =
      write_loop_complete os (drop r (b ∷ buf)) (nwritten + r) (out ++ take r (b ∷ buf)) (rw left h)
        (omega (arith, left)) (omega (arith, left)) in
    let total : nwritten + r + length (drop r (b ∷ buf)) ≡ nwritten + suc (length buf) =
      omega (arith, left) in
    rw (nonzero, mod-eq nwritten r (omega arith), rest)
      (λ i. some (record {
        ret = total i;
        bytes =
            (append_assoc out (take r (b ∷ buf)) (drop r (b ∷ buf))
                ∙ ap (λ x. out ++ x) (take-append-drop r (b ∷ buf)))
              i;
      }))

-- os_file_write writes everything: if no call of write fails or moves nothing, none moves more
-- than it was asked to, and there are as many calls that move bytes as bytes, it returns the
-- count, whatever the interruptions and the sizes of the pieces, and the bytes written are those
-- of the buffer, in order.
pub os_file_write_complete :
    (os : List Outcome) (buf : List ℕ)
    → AllMove os (length buf)
    → length buf ≤ moves os
    → length buf < u32
    → os_file_write os buf ≡ some (record { ret = length buf; bytes = buf })
unfolding os_file_write
os_file_write_complete os buf h e l =
    write_loop_complete os buf 0 [] h e (omega arith)
    ∙ ap (λ n. some (record { ret = n; bytes = buf })) (zero-add _)

-- How a loop that has written `out` may end, with `buf` to come: the first `k` bytes more.
abbrev pub EndsWith : List ℕ → ℕ → List ℕ → Done → ℕ → Type 0
EndsWith buf nwritten out d k =
    (k ≤ length buf)
    × (d.bytes ≡ out ++ take k buf)
    × ((d.ret ≡ nwritten + k) ⊎ (d.ret ≡ minus_one))

ends_here :
    (buf : List ℕ) (nwritten : ℕ) (out : List ℕ) (d : Done) (ret : ℕ)
    → (ret ≡ nwritten) ⊎ (ret ≡ minus_one)
    → some (record { ret = ret; bytes = out }) ≡ some d
    → EndsWith buf nwritten out d 0
ends_here buf nwritten out d ret r e =
    let e' : record { ret = ret; bytes = out } ≡ d = cc in
    let same : ret ≡ d.ret = ap (λ x. x.ret) e' in
    (
      omega arith,
      sym (ap (λ x. x.bytes) e') ∙ sym (append-nil out),
      elim r [ inl z ↦ inl (omega (arith, same, z)) | inr z ↦ inr (sym same ∙ z) ],
    )

write_loop-prefix :
    (os : List Outcome) (buf : List ℕ) (nwritten : ℕ) (out : List ℕ) (d : Done)
    → AllFit os (length buf)
    → nwritten + length buf < u32
    → write_loop os buf nwritten out ≡ some d
    → (k : ℕ) × EndsWith buf nwritten out d k
unfolding write_loop
write_loop-prefix os [] nwritten out d h l e =
    (0, ends_here [] nwritten out d nwritten (inl refl) e)
write_loop-prefix [] (b ∷ buf) nwritten out d h l e = cc
write_loop-prefix (interrupted ∷ os) (b ∷ buf) nwritten out d h l e =
    write_loop-prefix os (b ∷ buf) nwritten out d h l e
write_loop-prefix (failed ∷ os) (b ∷ buf) nwritten out d h l e =
    (0, ends_here (b ∷ buf) nwritten out d minus_one (inr refl) e)
write_loop-prefix (moved r ∷ os) (b ∷ buf) nwritten out d h l e = elim (Bool-cases (r == 0)) [
  | inl z ↦ (0, ends_here (b ∷ buf) nwritten out d nwritten (inl refl) (rw z at e))
  | inr z ↦
      let left = length-drop r (b ∷ buf) in
      let (k, ends) =
        write_loop-prefix os (drop r (b ∷ buf)) (nwritten + r) (out ++ take r (b ∷ buf)) d
          (rw left h.1) (omega (arith, left, h.0))
          (rw (z, mod-eq nwritten r (omega (arith, h.0))) at e) in
      let (fits, bytes, ret) = ends in
      (
        r + k,
        (
          omega (arith, left, fits, h.0),
          bytes ∙ append_assoc out _ _ ∙ ap (λ x. out ++ x) (take_more r k (b ∷ buf)),
          elim ret [ inl q ↦ inl (omega (arith, q)) | inr q ↦ inr q ],
        ),
      )
]

-- Whatever write answers, so long as it moves no more than it was asked to: when os_file_write
-- returns, what it has written is a prefix of the buffer, and it returns either the length of
-- that prefix or the unsigned -1.
pub os_file_write_prefix :
    (os : List Outcome) (buf : List ℕ) (d : Done)
    → AllFit os (length buf)
    → length buf < u32
    → os_file_write os buf ≡ some d
    → (k : ℕ) × (k ≤ length buf) × (d.bytes ≡ take k buf) × ((d.ret ≡ k) ⊎ (d.ret ≡ minus_one))
unfolding os_file_write
os_file_write_prefix os buf d h l e =
    let (k, ends) = write_loop-prefix os buf 0 [] d h (omega (arith, l)) e in
    let (fits, bytes, ret) = ends in
    (k, fits, bytes, elim ret [ inl q ↦ inl (omega (arith, q)) | inr q ↦ inr q ])

pub not_negative : (n : ℕ) → ltb n 0 ≡ false
not_negative n = ground arith

-- os_file_append does not see that a write failed: whenever open and close succeed and the call
-- returns, it returns 0, with only the bytes that were written before the failure in the file.
pub os_file_append_hides_errors :
    (k : Kernel) (file buf : List ℕ) (d : Done)
    → k.opens ≡ true
    → k.closes ≡ true
    → os_file_write k.writes buf ≡ some d
    → os_file_append k file buf ≡ some (success, file ++ d.bytes)
unfolding os_file_append
os_file_append_hides_errors k file buf d o c e = rw (o, e, c, not_negative d.ret) refl
