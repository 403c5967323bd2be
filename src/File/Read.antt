-- ===== src/File/Read.antt =====
-- What os_file_read of os_file.c reads.
use multi_task_app.Prelude.{
  ℕ, zero, suc, ◌+◌, ◌-◌, ◌≤◌, ◌<◌, ◌≡◌, ◌⊎◌, refl, ◌∙◌, ap, sym, inl, inr, ◌==◌, Bool-cases, take,
  drop, some, List, [], ◌∷◌, ◌++◌, append_assoc, append-nil, arith,
}
use multi_task_app.File.{
  Outcome, moved, interrupted, failed, u32, minus_one, Done, read_loop, os_file_read,
}
use multi_task_app.File.Transfer.{AllFit, mod-eq, take_more}

-- How a loop that has read `out` may end, with `file` to come and room for `count` bytes.
abbrev EndsRead : List ℕ → ℕ → ℕ → List ℕ → Done → ℕ → Type 0
EndsRead file count nread out d k =
    (k ≤ count) × (d.bytes ≡ out ++ take k file) × ((d.ret ≡ nread + k) ⊎ (d.ret ≡ minus_one))

ends_here :
    (file : List ℕ) (count nread : ℕ) (out : List ℕ) (d : Done) (ret : ℕ)
    → (ret ≡ nread) ⊎ (ret ≡ minus_one)
    → some (record { ret = ret; bytes = out }) ≡ some d
    → EndsRead file count nread out d 0
ends_here file count nread out d ret r e =
    let e' : record { ret = ret; bytes = out } ≡ d = cc in
    let same : ret ≡ d.ret = ap (λ x. x.ret) e' in
    (
      omega arith,
      sym (ap (λ x. x.bytes) e') ∙ sym (append-nil out),
      elim r [ inl z ↦ inl (omega (arith, same, z)) | inr z ↦ inr (sym same ∙ z) ],
    )

read_loop-prefix :
    (os : List Outcome) (n : ℕ) (file : List ℕ) (count nread : ℕ) (out : List ℕ) (d : Done)
    → AllFit os n
    → n ≤ count
    → nread + count < u32
    → read_loop os file count nread out ≡ some d
    → (k : ℕ) × EndsRead file count nread out d k
unfolding read_loop
read_loop-prefix os n file zero nread out d h c l e =
    (0, ends_here file 0 nread out d nread (inl refl) e)
read_loop-prefix [] n file (suc count) nread out d h c l e = cc
read_loop-prefix (interrupted ∷ os) n file (suc count) nread out d h c l e =
    read_loop-prefix os n file (suc count) nread out d h c l e
read_loop-prefix (failed ∷ os) n file (suc count) nread out d h c l e =
    (0, ends_here file (suc count) nread out d minus_one (inr refl) e)
read_loop-prefix (moved r ∷ os) n file (suc count) nread out d h c l e =
    elim (Bool-cases (r == 0)) [
      | inl z ↦ (0, ends_here file (suc count) nread out d nread (inl refl) (rw z at e))
      | inr z ↦
          let (k, ends) =
            read_loop-prefix os (n - r) (drop r file) (suc count - r) (nread + r)
              (out ++ take r file) d h.1 (omega (arith, c)) (omega (arith, l, h.0, c))
              (rw (z, mod-eq nread r (omega (arith, l, h.0, c))) at e) in
          let (fits, bytes, ret) = ends in
          (
            r + k,
            (
              omega (arith, fits, h.0, c),
              bytes ∙ append_assoc out _ _ ∙ ap (λ x. out ++ x) (take_more r k file),
              elim ret [ inl q ↦ inl (omega (arith, q)) | inr q ↦ inr q ],
            ),
          )
    ]

-- Whatever read answers, so long as it moves no more than the room that is left: when
-- os_file_read returns, the bytes it has read are the file's from the start of the call on, in
-- order and no more than `count`, and it returns either their number or the unsigned -1.
pub os_file_read_prefix :
    (os : List Outcome) (file : List ℕ) (count : ℕ) (d : Done)
    → AllFit os count
    → count < u32
    → os_file_read os file count ≡ some d
    → (k : ℕ) × (k ≤ count) × (d.bytes ≡ take k file) × ((d.ret ≡ k) ⊎ (d.ret ≡ minus_one))
unfolding os_file_read
os_file_read_prefix os file count d h l e =
    let (k, ends) =
      read_loop-prefix os count file count 0 [] d h (omega arith) (omega (arith, l)) e in
    let (fits, bytes, ret) = ends in
    (k, fits, bytes, elim ret [ inl q ↦ inl (omega (arith, q)) | inr q ↦ inr q ])
