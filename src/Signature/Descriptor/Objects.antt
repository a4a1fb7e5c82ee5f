-- ===== src/Signature/Descriptor/Objects.antt =====
-- What the state kObject of parse_single_type_descriptor returns.
use platform_libnativehelper.Base.{
  ℕ, ◌+◌, ◌≤◌, ◌≡◌, refl, sym, ap, ◌∙◌, ◌⊎◌, inl, inr, Bool, true, false, ◌||◌, [], ◌∷◌, ◌++◌,
  Option, none, some, arith, append_assoc, ◌==◌, length, length-append, All, Bool-cases,
}
use platform_libnativehelper.Signature.Checked.{
  Checked, ok, ◌>>=◌, Mode, parse_failure, parse_failure->>=,
}
use platform_libnativehelper.Signature.View.{StringView, substr-append, substr_from-append}
use platform_libnativehelper.Signature.Descriptor.{
  ParseTypeDescriptorResult, find_semicolon, cut_object, parse_object,
}
use platform_libnativehelper.Signature.Descriptor.Grammar.{IsNameChar, IsFieldType, IsType, field}

abbrev pub result : StringView → StringView → ParseTypeDescriptorResult
result t rest = record { token = t; remainder = rest }

find_semicolon-append :
    (m : Mode) (i : ℕ) (name rest : StringView)
    → All IsNameChar name
    → find_semicolon m i (name ++ b';' ∷ rest) ≡ ok (some (i + length name + 1))
unfolding find_semicolon
find_semicolon-append m i [] rest h = ground arith
find_semicolon-append m i (c ∷ name) rest h =
    ground (arith, find_semicolon-append m (i + 1) name rest h.1)

-- A class name that ends at the semicolon, or a failure.
abbrev Found : Mode → ℕ → StringView → Checked (Option ℕ) → Type 0
Found m i s r =
    ((name : StringView) × (rest : StringView) × (All IsNameChar name) × (s ≡ name ++ b';' ∷ rest))
    ⊎ (r ≡ ok none)
    ⊎ (r ≡ parse_failure m)

-- The tests of the loop body, and what each says of the character.
abbrev is_illegal : ℕ → Bool
is_illegal c = c == b')' || c == b'(' || c == b'['

IsNameChar-cases :
    (c : ℕ)
    → (is_illegal c ≡ true)
      ⊎ ((is_illegal c ≡ false) × (c ≡ b';'))
      ⊎ ((is_illegal c ≡ false) × ((c == b';') ≡ false) × IsNameChar c)
IsNameChar-cases c = elim (Bool-cases (is_illegal c)) [
  | inl e ↦ inl e
  | inr e ↦ elim (Bool-cases (c == b';')) [
    | inl f ↦ inr (inl (e, ground arith))
    | inr f ↦ inr (inr (e, f, (ground arith, ground arith, ground arith, ground arith)))
  ]
]

Found-cons :
    (m : Mode) (i c : ℕ) (s : StringView) (r : Checked (Option ℕ))
    → IsNameChar c
    → Found m (i + 1) s r
    → Found m i (c ∷ s) r
Found-cons m i c s r h (inl (name, rest, hs, e)) = inl (c ∷ name, rest, (h, hs), ap (◌∷◌ c) e)
Found-cons m i c s r h (inr f) = inr f

find_semicolon-Found : (m : Mode) (i : ℕ) (s : StringView) → Found m i s (find_semicolon m i s)
unfolding find_semicolon
find_semicolon-Found m i [] = inr (inl refl)
find_semicolon-Found m i (c ∷ s) = elim (IsNameChar-cases c) [
  | inl e ↦ rw e (inr (inr refl))
  | inr (inl (e, f)) ↦ inl ([], s, tt, ap (λ x. x ∷ s) f)
  | inr (inr (e, f, h)) ↦ rw (e, f) (Found-cons m i c s _ h (find_semicolon-Found m (i + 1) s))
]

cut_object-append :
    (m : Mode) (t rest : StringView)
    → 3 ≤ length t
    → cut_object m (t ++ rest) (some (length t)) ≡ ok (result t rest)
unfolding cut_object
cut_object-append m t rest h = rw (substr-append t rest, substr_from-append t rest) (ground arith)

-- An empty class name is refused.
cut_object_short :
    (m : Mode) (t rest : StringView)
    → length t ≤ 2
    → cut_object m (t ++ rest) (some (length t)) ≡ parse_failure m
unfolding cut_object
cut_object_short m t rest h =
    rw (substr-append t rest, substr_from-append t rest)
      (ground (
        arith,
        parse_failure->>= {B = ParseTypeDescriptorResult} m (λ (_ : Unit {0}). ok (result t rest)),
      ))

-- A whole object descriptor, from its L to its semicolon.
abbrev pub object_of : StringView → StringView
object_of name = b'L' ∷ name ++ b';' ∷ []

length-object_of : (name : StringView) → length (object_of name) ≡ 1 + length name + 1
length-object_of name = omega (arith, length-append name (b';' ∷ []))

object_of-append : (name rest : StringView) → object_of name ++ rest ≡ (b'L' ∷ name) ++ b';' ∷ rest
object_of-append name rest = append_assoc (b'L' ∷ name) (b';' ∷ []) rest

L-IsNameChar : IsNameChar b'L'
L-IsNameChar = (omega arith, omega arith, omega arith, omega arith)

parse_object-find :
    (m : Mode) (name rest : StringView)
    → All IsNameChar name
    → parse_object m (object_of name ++ rest)
      ≡ cut_object m (object_of name ++ rest) (some (length (object_of name)))
unfolding parse_object
parse_object-find m name rest hs =
    let e : find_semicolon m 0 (object_of name ++ rest) ≡ ok (some (length (object_of name))) =
      ap (find_semicolon m 0) (object_of-append name rest)
      ∙ find_semicolon-append m 0 (b'L' ∷ name) rest (L-IsNameChar, hs)
      ∙ ap (λ n. ok (some n)) (omega (arith, length-object_of name)) in
    ap (λ r. r >>= cut_object m (object_of name ++ rest)) e

pub parse_object-append :
    (m : Mode) (c : ℕ) (name rest : StringView)
    → All IsNameChar (c ∷ name)
    → parse_object m (object_of (c ∷ name) ++ rest) ≡ ok (result (object_of (c ∷ name)) rest)
parse_object-append m c name rest hs =
    parse_object-find m (c ∷ name) rest hs
    ∙ cut_object-append m (object_of (c ∷ name)) rest (omega (arith, length-object_of (c ∷ name)))

-- Either a descriptor of the grammar is split off the view `s`, or parsing fails.
pub data Parsed (m : Mode) (allow_void : Bool) (s : StringView)
    (r : Checked ParseTypeDescriptorResult) : Type 0 where
  parsed :
      (t rest : StringView)
      → IsType allow_void t
      → s ≡ t ++ rest
      → r ≡ ok (result t rest)
      → Parsed m allow_void s r
  failed : r ≡ parse_failure m → Parsed m allow_void s r

parse_object-found :
    (m : Mode) (v : Bool) (s name rest : StringView)
    → All IsNameChar name
    → b'L' ∷ s ≡ object_of name ++ rest
    → Parsed m v (b'L' ∷ s) (parse_object m (b'L' ∷ s))
parse_object-found m v s [] rest hs e = failed (
    ap (parse_object m) e
    ∙ parse_object-find m [] rest hs
    ∙ cut_object_short m (object_of []) rest (omega arith))
parse_object-found m v s (c ∷ name) rest hs e =
    parsed (object_of (c ∷ name)) rest (field (IsFieldType.object c name hs.0 hs.1 refl)) e
      (ap (parse_object m) e ∙ parse_object-append m c name rest hs)

pub parse_object-Parsed :
    (m : Mode) (v : Bool) (s : StringView) → Parsed m v (b'L' ∷ s) (parse_object m (b'L' ∷ s))
unfolding parse_object find_semicolon cut_object
parse_object-Parsed m v s = elim (find_semicolon-Found m 1 s) [
  | inl (name, rest, hs, e) ↦
      parse_object-found m v s name rest hs (ap (◌∷◌ b'L') e ∙ sym (object_of-append name rest))
  | inr (inl e) ↦ failed (ap (λ r. r >>= cut_object m (b'L' ∷ s)) e)
  | inr (inr e) ↦
      failed
        (ap (λ r. r >>= cut_object m (b'L' ∷ s)) e ∙ parse_failure->>= m (cut_object m (b'L' ∷ s)))
]
