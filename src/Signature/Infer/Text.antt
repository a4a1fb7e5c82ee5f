-- ===== src/Signature/Infer/Text.antt =====
-- The text that get_string writes: it fills its array exactly.
use native.Mathlib.Nat.{zero-add, suc-add}
use platform_libnativehelper.Base.{
  ℕ, zero, suc, ◌+◌, ◌≡◌, refl, sym, ap, ◌∙◌, List, [], ◌∷◌, ◌++◌, append_assoc, append-nil, arith,
  ==_iff, length, length-append,
}
use platform_libnativehelper.Signature.Infer.{
  write, zeros, write_view, add_sizes, write_args, fill_string, string_size,
}
use platform_libnativehelper.Signature.Checked.{ok}
use platform_libnativehelper.Signature.View.{StringView}
use platform_libnativehelper.Signature.Function.Outcomes.{joined}
use platform_libnativehelper.Signature.Function.{JniSignatureDescriptor}
use platform_libnativehelper.Signature.Function.RoundTrip.{printed}

-- The array while it is written: a first part, then zeros.
write_at :
    (done rest : List ℕ) (x c : ℕ)
    → write (done ++ x ∷ rest) (length done) c ≡ ok (done ++ c ∷ rest)
unfolding write
write_at [] rest x c = refl
write_at (d ∷ done) rest x c = rw (write_at done rest x c)

length-zeros : (n : ℕ) → length (zeros n) ≡ n
length-zeros zero = refl
length-zeros (suc n) = ap suc (length-zeros n)

zeros-add : (a b : ℕ) → zeros (a + b) ≡ zeros a ++ zeros b
zeros-add zero b = rw zero-add
zeros-add (suc a) b = rw suc-add (ap (◌∷◌ 0) (zeros-add a b))

write_end :
    (done rest : List ℕ) (x c p : ℕ)
    → p ≡ length done
    → write (done ++ x ∷ rest) p c ≡ ok ((done ++ c ∷ []) ++ rest)
write_end done rest x c p e =
    rw e (write_at done rest x c ∙ ap ok (sym (append_assoc done (c ∷ []) rest)))

-- Writing a view replaces as many characters, and moves on by its length.
write_view_lem :
    (done s old rest : List ℕ) (p : ℕ)
    → p ≡ length done
    → length old ≡ length s
    → write_view (done ++ (old ++ rest)) p s ≡ ok ((done ++ s) ++ rest, p + length s)
unfolding write_view
write_view_lem done [] [] rest p e h = ground (arith, append-nil done)
write_view_lem done [] (o ∷ old) rest p e h = absurd (omega arith)
write_view_lem done (c ∷ s) [] rest p e h = absurd (omega arith)
write_view_lem done (c ∷ s) (o ∷ old) rest p e h =
    rw
      (
        write_end done (old ++ rest) o c p e,
        write_view_lem (done ++ c ∷ []) s old rest (p + 1)
            (omega (arith, length-append done (c ∷ []))) (omega arith),
      )
      (ground (arith, append_assoc done (c ∷ []) s))

write_args_lem :
    (done : List ℕ) (args : List StringView) (rest : List ℕ) (p : ℕ)
    → p ≡ length done
    → write_args (done ++ (zeros (length (joined args)) ++ rest)) p args
      ≡ ok ((done ++ joined args) ++ rest, p + length (joined args))
unfolding write_args
write_args_lem done [] rest p e = ground (arith, append-nil done)
write_args_lem done (s ∷ args) rest p e =
    rw
      (
        length-append s (joined args),
        zeros-add (length s) (length (joined args)),
        append_assoc (zeros (length s)) (zeros (length (joined args))) rest,
        write_view_lem done s (zeros (length s)) (zeros (length (joined args)) ++ rest) p e
            (length-zeros (length s)),
      )
      (rw
        (write_args_lem (done ++ s) args rest (p + length s) (omega (arith, length-append done s)))
        (ground (arith, append_assoc done s (joined args))))

add_sizes_lem : (acc : ℕ) (args : List StringView) → add_sizes acc args ≡ acc + length (joined args)
unfolding add_sizes
add_sizes_lem acc [] = omega arith
add_sizes_lem acc (s ∷ args) =
    omega (arith, add_sizes_lem (acc + length s) args, length-append s (joined args))

-- The five pieces of the array: the parentheses, the parameters, the return type and the end.
abbrev pieces : ℕ → ℕ → List ℕ
pieces j r = zeros 1 ++ (zeros j ++ (zeros 1 ++ (zeros r ++ zeros 1)))

zeros-pieces : (j r : ℕ) → zeros (1 + j + 1 + r + 1) ≡ pieces j r
zeros-pieces j r =
    ap zeros (let e : 1 + j + 1 + r + 1 ≡ 1 + (j + (1 + (r + 1))) = omega arith in e)
    ∙ rw (
      zeros-add 1 (j + (1 + (r + 1))),
      zeros-add j (1 + (r + 1)),
      zeros-add 1 (r + 1),
      zeros-add r 1,
    )

pub fill_string_lem :
    (d : JniSignatureDescriptor) → fill_string (string_size d) d ≡ ok (printed d ++ 0 ∷ [])
unfolding fill_string string_size
fill_string_lem d =
    let j = length (joined d.args) in
    let r = length d.ret in
    let p₁ : List ℕ = b'(' ∷ [] in
    let p₂ : List ℕ = p₁ ++ joined d.args in
    let p₃ : List ℕ = p₂ ++ b')' ∷ [] in
    let e₂ : 1 + j ≡ length p₂ = omega arith in
    let e₃ : 1 + j + 1 ≡ length p₃ = omega (arith, length-append p₂ (b')' ∷ [])) in
    let e₄ : 1 + j + 1 + r ≡ length (p₃ ++ d.ret) = omega (arith, e₃, length-append p₃ d.ret) in
    rw
      (
        add_sizes_lem 1 d.args,
        zeros-pieces j r,
        write_view_lem [] (b'(' ∷ []) (0 ∷ []) (zeros j ++ (zeros 1 ++ (zeros r ++ zeros 1))) 0 refl
            refl,
        write_args_lem p₁ d.args (zeros 1 ++ (zeros r ++ zeros 1)) 1 refl,
        write_view_lem p₂ (b')' ∷ []) (0 ∷ []) (zeros r ++ zeros 1) (1 + j) e₂ refl,
        write_view_lem p₃ d.ret (zeros r) (zeros 1) (1 + j + 1) e₃ (length-zeros r),
        write_end (p₃ ++ d.ret) [] 0 0 (1 + j + 1 + r) e₄,
        (==_iff (1 + j + 1 + r) (1 + j + 1 + r)).1 refl,
      )
      (ap ok (simp (append_assoc, append-nil)))
