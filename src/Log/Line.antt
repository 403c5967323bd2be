-- ===== src/Log/Line.antt =====
-- The lines of os_log.c.
use multi_task_app.Prelude.{
  ℕ, zero, suc, ◌-◌, ◌≡◌, refl, sym, ap, ◌==◌, ltb, Bool-cases, inl, inr, true, if◌then◌else◌,
  length, length-append, take, Option, none, some, List, [], ◌∷◌, ◌++◌, append_assoc, append-nil,
  arith,
}
use multi_task_app.Log.{
  Level, mlog_fatal, mlog_buff_size, Buffer, print, print_all, and_then, Output, output, called,
  printed, Moment, newline, colour_none, colour_l_red, os_log_colour_get, os_log_enum2str, heading,
  os_log_message, assertion, os_log_assert,
}

abbrev pub concat : List (List ℕ) → List ℕ
concat [] = []
concat (p ∷ ps) = p ++ concat ps

zero_minus : (n : ℕ) → 0 - n ≡ 0
zero_minus n = omega arith

suc_minus_suc : (n k : ℕ) → suc n - suc k ≡ n - k
suc_minus_suc n k = omega arith

minus_zero : (n : ℕ) → suc n - 0 ≡ suc n
minus_zero n = omega arith

take-append {ℓ} :
    {A : Type ℓ} (n : ℕ) (xs ys : List A) → take n (xs ++ ys) ≡ take n xs ++ take (n - length xs) ys
take-append zero xs ys = rw (zero_minus (length xs)) refl
take-append (suc n) [] ys = rw (minus_zero n) refl
take-append (suc n) (x ∷ xs) ys =
    rw (suc_minus_suc n (length xs)) (ap (λ l. x ∷ l) (take-append n xs ys))

-- What is printed so far, and cut off at the array's end.
abbrev pub cut : List ℕ → List ℕ
cut whole = take (mlog_buff_size - 1) whole

abbrev pub holding : List ℕ → Buffer
holding whole = record { text = cut whole; ret = length whole }

print-holding :
    (p whole : List ℕ)
    → print p (holding whole)
      ≡ (if ltb mlog_buff_size (length whole) then none else some (holding (whole ++ p)))
unfolding print
print-holding p whole =
    let room : mlog_buff_size - length whole - 1 ≡ mlog_buff_size - 1 - length whole =
      omega arith in
    rw (take-append (mlog_buff_size - 1) whole p, length-append whole p, room) refl

print_all-holding :
    (ps : List (List ℕ)) (last whole : List ℕ)
    → print_all (ps ++ last ∷ []) (holding whole) ≡ (
        if ltb mlog_buff_size (length (whole ++ concat ps))
        then none
        else some (holding (whole ++ concat ps ++ last)))
unfolding print_all and_then
print_all-holding [] last whole = elim (Bool-cases (ltb mlog_buff_size (length whole))) [
  | inl e ↦ rw (print-holding last whole, append-nil whole, e) refl
  | inr e ↦ rw (print-holding last whole, append-nil whole, e) refl
]
print_all-holding (p ∷ ps) last whole = elim (Bool-cases (ltb mlog_buff_size (length whole))) [
  | inl e ↦
      let long = length-append whole (p ++ concat ps) in
      let past : ltb mlog_buff_size (length (whole ++ (p ++ concat ps))) ≡ true =
        ground (arith, e, long) in
      rw (print-holding p whole, e, past) refl
  | inr e ↦
      rw (print-holding p whole, e, sym (append_assoc whole p (concat ps)))
        (print_all-holding ps last (whole ++ p))
]

-- A line of the log with its beginning and its end: what os_log_message and os_log_assert give.
abbrev pub logged : ℕ → Level → List ℕ → List ℕ → Option Output
logged callback level beginning message =
    if ltb mlog_buff_size (length beginning)
    then none
    else some (
        if callback == 0
        then printed (cut (beginning ++ message) ++ newline ∷ colour_none)
        else called callback level (cut (beginning ++ message)))

output-print_all :
    (callback : ℕ) (level : Level) (front : List (List ℕ)) (piece message : List ℕ)
    → output callback level
        (print_all (front ++ piece ∷ message ∷ []) (record { text = []; ret = 0 }))
      ≡ logged callback level (concat (front ++ piece ∷ [])) message
unfolding output
output-print_all callback level front piece message =
    let beginning = concat (front ++ piece ∷ []) in
    rw
      (
        sym (append_assoc front (piece ∷ []) (message ∷ [])),
        print_all-holding (front ++ piece ∷ []) message [],
      )
      (elim (Bool-cases (ltb mlog_buff_size (length beginning))) [
        | inl e ↦ rw e refl
        | inr e ↦ rw e refl
      ])

module _ (decimal : ℕ → List ℕ) where
  -- os_log_message gives the first 4095 bytes of a line to the callback or, followed by a newline
  -- and the code that resets the colour, to the standard output: the colour of the level, the time,
  -- file and line, the name of the thread, the level, then the message. If what comes before the
  -- message is longer than 4096 bytes, it writes behind its array.
  pub os_log_message-logged :
      (callback : ℕ) (t : Moment) (level : Level) (file_name : List ℕ) (line : ℕ) (message : List ℕ)
      → os_log_message decimal callback t level file_name line message
        ≡ logged callback level
            (concat (
              heading decimal (os_log_colour_get level) t file_name line
              ++ os_log_enum2str level ∷ []))
            message
  unfolding os_log_message
  os_log_message-logged callback t level file_name line message =
      output-print_all callback level (heading decimal (os_log_colour_get level) t file_name line)
        (os_log_enum2str level) message

  -- os_log_assert gives such a line at the level of fatal errors, in light red, with the
  -- expression that is not true in place of the level.
  pub os_log_assert-logged :
      (callback : ℕ) (t : Moment) (expr file_name : List ℕ) (line : ℕ) (message : List ℕ)
      → os_log_assert decimal callback t expr file_name line message
        ≡ logged callback mlog_fatal
            (concat (heading decimal colour_l_red t file_name line ++ assertion decimal expr ∷ []))
            message
  unfolding os_log_assert
  os_log_assert-logged callback t expr file_name line message =
      output-print_all callback mlog_fatal (heading decimal colour_l_red t file_name line)
        (assertion decimal expr) message
