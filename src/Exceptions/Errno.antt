-- ===== src/Exceptions/Errno.antt =====
-- JNIHelp.c: the text of an error number fits in the buffer.
use platform_libnativehelper.Base.{
  ℕ, zero, suc, ◌+◌, ◌-◌, ◌/◌, ◌%◌, ◌^◌, ◌≤◌, ◌<◌, ◌≡◌, refl, sym, ap, subst, ◌≢◌, ◌⊎◌, inl, inr,
  Bool, true, false, List, [], ◌∷◌, ◌++◌, arith, ltb, ◌==◌, if◌then◌else◌, ==_iff, codes, length,
  take, length-append,
}
use platform_libnativehelper.Exceptions.Throwing.{
  digits, platform_str_error, print_int, snprintf, Strerror,
}

shorter_if :
    (b : Bool) (xs ys : List ℕ) (n : ℕ)
    → length xs ≤ n
    → length ys ≤ n
    → length (if b then xs else ys) ≤ n
shorter_if true xs ys n h h' = h
shorter_if false xs ys n h h' = h'

take_whole : (n : ℕ) (xs : List ℕ) → length xs ≤ n → take n xs ≡ xs
take_whole zero [] h = refl
take_whole (suc n) [] h = refl
take_whole zero (x ∷ xs) h = absurd (omega (arith, h))
take_whole (suc n) (x ∷ xs) h = ap (λ z. x ∷ z) (take_whole n xs (omega (arith, h)))

digits_bound : (fuel n : ℕ) (rest : List ℕ) → length (digits fuel n rest) ≤ fuel + length rest
unfolding digits
digits_bound zero n rest = omega arith
digits_bound (suc fuel) n rest =
    let h = digits_bound fuel (n / 10) ((48 + n % 10) ∷ rest) in
    shorter_if (ltb n 10) ((48 + n) ∷ rest) (digits fuel (n / 10) ((48 + n % 10) ∷ rest))
      (suc fuel + length rest) (omega arith) (omega (arith, h))

print_int_bound : (w : ℕ) → length (print_int w) ≤ 11
unfolding print_int
print_int_bound w =
    let h = digits_bound 10 w [] in
    let h' = digits_bound 10 (2 ^ 32 - w) [] in
    shorter_if (ltb w (2 ^ 31)) (digits 10 w []) (b'-' ∷ digits 10 (2 ^ 32 - w) []) 11
      (omega (arith, h)) (omega (arith, h'))

-- The text of strerror_r, or the whole number where it fails, and room for the NUL.
abbrev pub IsErrorText : ℕ × List ℕ → ℕ → ℕ → List ℕ → Type 0
IsErrorText r errnum buflen text =
    (((r.0 ≡ 0) × (text ≡ r.1)) ⊎ ((r.0 ≢ 0) × (text ≡ codes "errno " ++ print_int errnum)))
    × (length text < buflen)

-- In a buffer of at least 18 bytes, and where the text of strerror_r fits, platformStrError gives
-- that text if strerror_r succeeds and else the whole of errno and the number, and the text leaves
-- room for the NUL.
pub platform_str_error_lem :
    (c : Strerror) (errnum buflen : ℕ)
    → 18 ≤ buflen
    → length ((c.strerror_r errnum buflen).1) < buflen
    → IsErrorText (c.strerror_r errnum buflen) errnum buflen (platform_str_error c errnum buflen)
unfolding platform_str_error snprintf
platform_str_error_lem c errnum buflen room fits = by_status (r.0 == 0) refl
  where
    r : ℕ × List ℕ
    r = c.strerror_r errnum buflen

    whole : List ℕ
    whole = codes "errno " ++ print_int errnum

    by_status :
        (b : Bool)
        → (r.0 == 0) ≡ b
        → IsErrorText r errnum buflen (if b then r.1 else take (buflen - 1) whole)
    by_status true h = (inl ((==_iff r.0 0).0 h, refl), fits)
    by_status false h =
        let b = print_int_bound errnum in
        let w = length-append (codes "errno ") (print_int errnum) in
        let k = take_whole (buflen - 1) whole (omega (arith, b, w, room)) in
        subst (λ z. IsErrorText r errnum buflen z) (sym k)
          (inr (ground (arith, h), refl), omega (arith, b, w, room))
