-- ===== src/Signature/View.antt =====
-- ConstexprStringView of signature_checker.h: a view is the list of the characters that it shows.
use platform_libnativehelper.Base.{
  ℕ, ◌-◌, ◌≡◌, refl, ◌↔◌, Bool, true, false, List, [], ◌∷◌, ◌++◌, arith, leb, ◌==◌, if◌then◌else◌,
  length, take, drop, length-append, take-append, drop-append, take_all,
}
use platform_libnativehelper.Signature.Checked.{Checked, ok, ◌>>◌, x_assert}

abbrev pub StringView : Type 0
StringView = List ℕ

-- substr(start, len)
unfoldable pub substr : StringView → ℕ → ℕ → Checked StringView
substr s start len = do
  x_assert (leb start (length s))
  x_assert (leb len (length s - start))
  ok (take len (drop start s))

-- substr(start)
unfoldable pub substr_from : StringView → ℕ → Checked StringView
unfolding substr
substr_from s start = do x_assert (leb start (length s)); substr s start (length s - start)

-- The loop of operator==, over two views of one size.
unfoldable pub same_chars : StringView → StringView → Bool
same_chars (x ∷ xs) (y ∷ ys) = if x == y then same_chars xs ys else false
same_chars _ _ = true

-- operator==
unfoldable pub view_eq : StringView → StringView → Bool
unfolding same_chars
view_eq lhs rhs = if length lhs == length rhs then same_chars lhs rhs else false

same_chars_sound : (xs ys : StringView) → length xs ≡ length ys → same_chars xs ys ≡ true → xs ≡ ys
unfolding same_chars
same_chars_sound [] [] e h = refl
same_chars_sound [] (y ∷ ys) e h = ground arith
same_chars_sound (x ∷ xs) [] e h = ground arith
same_chars_sound (x ∷ xs) (y ∷ ys) e h = ground (arith, same_chars_sound xs ys)

same_chars_self : (xs : StringView) → same_chars xs xs ≡ true
unfolding same_chars
same_chars_self [] = refl
same_chars_self (x ∷ xs) = ground (arith, same_chars_self xs)

view_eq_self : (xs : StringView) → view_eq xs xs ≡ true
unfolding view_eq
view_eq_self xs = ground (arith, same_chars_self xs)

pub view_eq_iff : (xs ys : StringView) → (view_eq xs ys ≡ true) ↔ (xs ≡ ys)
unfolding view_eq
view_eq_iff xs ys =
    (λ h. ground (arith, same_chars_sound xs ys), λ e. ground (arith, view_eq_self xs))

-- A view is cut where a first part of it ends.
pub substr-append : (xs ys : StringView) → substr (xs ++ ys) 0 (length xs) ≡ ok xs
unfolding substr
substr-append xs ys = ground (arith, length-append xs ys, take-append xs ys)

pub substr_from-append : (xs ys : StringView) → substr_from (xs ++ ys) (length xs) ≡ ok ys
unfolding substr_from
substr_from-append xs ys = ground (arith, length-append xs ys, drop-append xs ys, take_all ys)
