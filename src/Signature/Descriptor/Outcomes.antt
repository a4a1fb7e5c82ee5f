-- ===== src/Signature/Descriptor/Outcomes.antt =====
-- What parse_single_type_descriptor returns: it splits off a descriptor of the grammar wherever
-- one stands, and otherwise fails as PARSE_FAILURE does.
use platform_libnativehelper.Base.{
  ℕ, ◌≤◌, ◌≡◌, refl, ap, ap₂, ◌∙◌, inl, inr, Bool, true, false, ◌||◌, [], ◌∷◌, ◌++◌, arith, ◌==◌,
  length, Bool-cases,
}
use platform_libnativehelper.Signature.Checked.{
  Checked, ok, ◌>>=◌, ◌>>◌, Mode, parse_failure, parse_assert, parse_failure->>=,
}
use platform_libnativehelper.Signature.View.{StringView, substr-append}
use platform_libnativehelper.Signature.Descriptor.{
  ParseTypeDescriptorResult, State, single_character, array, object, first_character,
  is_valid_jni_descriptor_start, parse_array, parse_rest, parse_single_type_descriptor,
}
use platform_libnativehelper.Signature.Descriptor.Grammar.{
  IsPrimitive, IsFieldType, primitive, IsType, field, void, IsFieldType-nonempty,
}
use platform_libnativehelper.Signature.Descriptor.Objects.{
  result, Parsed, parsed, failed, parse_object-append, parse_object-Parsed,
}

-- The state kArray, given what the component's parse did.
parse_array-parsed :
    (m : Mode) (t rest : StringView)
    → 1 ≤ length t
    → parse_array m (b'[' ∷ t ++ rest) (ok (result t rest)) ≡ ok (result (b'[' ∷ t) rest)
unfolding parse_array
parse_array-parsed m t rest h = ground (arith, substr-append (b'[' ∷ t) rest)

parse_array-Parsed :
    (m : Mode) (v : Bool) (s : StringView) (r : Checked ParseTypeDescriptorResult)
    → Parsed m false s r
    → Parsed m v (b'[' ∷ s) (parse_array m (b'[' ∷ s) r)
unfolding parse_array
parse_array-Parsed m v s r (parsed t rest (field d) e f) =
    parsed (b'[' ∷ t) rest (field (IsFieldType.array d refl)) (ap (◌∷◌ b'[') e) (
      ap₂ (λ x y. parse_array m (b'[' ∷ x) y) e f
      ∙ parse_array-parsed m t rest (IsFieldType-nonempty d))
parse_array-Parsed m v s r (parsed t rest (void h e') e f) = ground arith
parse_array-Parsed m v s r (failed e) =
    failed (ap (parse_array m (b'[' ∷ s)) e ∙ parse_failure->>= m _)

-- The first character and what it must be followed by.
data Start (m : Mode) (v : Bool) (c : ℕ) : Type 0 where
  starts_primitive : IsPrimitive c → Start m v c
  starts_void : c ≡ b'V' → Start m v c
  starts_object : c ≡ b'L' → Start m v c
  starts_array : c ≡ b'[' → Start m v c
  starts_none :
      (parse_assert m (is_valid_jni_descriptor_start c) >> first_character m c v) ≡ parse_failure m
      → Start m v c

abbrev is_primitive : ℕ → Bool
is_primitive c =
    c == b'Z'
    || c == b'B'
    || c == b'C'
    || c == b'S'
    || c == b'I'
    || c == b'J'
    || c == b'F'
    || c == b'D'

is_primitive-IsPrimitive : (c : ℕ) → is_primitive c ≡ true → IsPrimitive c
is_primitive-IsPrimitive c h = ground arith

starts_none_lem :
    (m : Mode) (v : Bool) (c : ℕ)
    → (c == b'V') ≡ false
    → (c == b'L') ≡ false
    → (c == b'[') ≡ false
    → is_primitive c ≡ false
    → (parse_assert m (is_valid_jni_descriptor_start c) >> first_character m c v) ≡ parse_failure m
unfolding first_character
starts_none_lem m v c h₁ h₂ h₃ h₄ = elim (Bool-cases (is_valid_jni_descriptor_start c)) [
  | inl e ↦ rw e (ground arith)
  | inr e ↦ rw e (parse_failure->>= m _)
]

start : (m : Mode) (v : Bool) (c : ℕ) → Start m v c
start m v c = elim (Bool-cases (c == b'V')) [
  | inl e ↦ starts_void (ground arith)
  | inr e₁ ↦ elim (Bool-cases (c == b'L')) [
    | inl e ↦ starts_object (ground arith)
    | inr e₂ ↦ elim (Bool-cases (c == b'[')) [
      | inl e ↦ starts_array (ground arith)
      | inr e₃ ↦ elim (Bool-cases (is_primitive c)) [
        | inl e ↦ starts_primitive (is_primitive-IsPrimitive c e)
        | inr e₄ ↦ starts_none (starts_none_lem m v c e₁ e₂ e₃ e₄)
      ]
    ]
  ]
]

-- The state that a primitive's letter leads to.
primitive_state :
    (m : Mode) (v : Bool) (c : ℕ)
    → IsPrimitive c
    → (parse_assert m (is_valid_jni_descriptor_start c) >> first_character m c v)
      ≡ ok single_character
unfolding first_character is_valid_jni_descriptor_start
primitive_state m v c h = ground arith

abbrev begin : Mode → ℕ → Bool → Checked State
begin m c v = parse_assert m (is_valid_jni_descriptor_start c) >> first_character m c v

parse_single-begin :
    (m : Mode) (c : ℕ) (s : StringView) (v : Bool) (r : Checked State)
    → begin m c v ≡ r
    → parse_single_type_descriptor m (c ∷ s) v
      ≡ (r >>= λ state. parse_rest m (c ∷ s) s (parse_single_type_descriptor m s false) state)
unfolding parse_single_type_descriptor
parse_single-begin m c s v r e =
    ap (λ x. x >>= λ state. parse_rest m (c ∷ s) s (parse_single_type_descriptor m s false) state) e

-- A single letter is a token by itself.
letter-append :
    (m : Mode) (v : Bool) (c : ℕ) (rest : StringView)
    → begin m c v ≡ ok single_character
    → parse_single_type_descriptor m (c ∷ rest) v ≡ ok (result (c ∷ []) rest)
unfolding parse_rest
letter-append m v c rest e =
    parse_single-begin m c rest v _ e ∙ ground (arith, substr-append (c ∷ []) rest)

letter-Parsed :
    (m : Mode) (c : ℕ) (s : StringView) (v : Bool)
    → IsType v (c ∷ [])
    → begin m c v ≡ ok single_character
    → Parsed m v (c ∷ s) (parse_single_type_descriptor m (c ∷ s) v)
unfolding parse_rest
letter-Parsed m c s v d e = parsed (c ∷ []) s d refl (letter-append m v c s e)

void_state : (m : Mode) → begin m b'V' true ≡ ok single_character
unfolding first_character is_valid_jni_descriptor_start
void_state m = refl

void_refused : (m : Mode) → begin m b'V' false ≡ parse_failure m
unfolding first_character is_valid_jni_descriptor_start
void_refused m = parse_failure->>= m _

object_state : (m : Mode) (v : Bool) → begin m b'L' v ≡ ok object
unfolding first_character is_valid_jni_descriptor_start
object_state m v = refl

array_state : (m : Mode) (v : Bool) → begin m b'[' v ≡ ok array
unfolding first_character is_valid_jni_descriptor_start
array_state m v = refl

refused :
    (m : Mode) (c : ℕ) (s : StringView) (v : Bool)
    → begin m c v ≡ parse_failure m
    → Parsed m v (c ∷ s) (parse_single_type_descriptor m (c ∷ s) v)
refused m c s v e = failed (parse_single-begin m c s v _ e ∙ parse_failure->>= m _)

V-Parsed :
    (m : Mode) (s : StringView) (v : Bool)
    → Parsed m v (b'V' ∷ s) (parse_single_type_descriptor m (b'V' ∷ s) v)
V-Parsed m s true = letter-Parsed m b'V' s true (void refl refl) (void_state m)
V-Parsed m s false = refused m b'V' s false (void_refused m)

Parsed-≡ :
    (m : Mode) (v : Bool) (s : StringView) {r r' : Checked ParseTypeDescriptorResult}
    → r ≡ r'
    → Parsed m v s r'
    → Parsed m v s r
Parsed-≡ m v s e (parsed t rest d f g) = parsed t rest d f (e ∙ g)
Parsed-≡ m v s e (failed g) = failed (e ∙ g)

empty_array :
    (m : Mode) (v : Bool) → Parsed m v (b'[' ∷ []) (parse_array m (b'[' ∷ []) (ok (result [] [])))
unfolding parse_array
empty_array m v = failed (parse_failure->>= m _)

array-Parsed :
    (m : Mode) (s : StringView) (v : Bool)
    → (1 ≤ length s → Parsed m false s (parse_single_type_descriptor m s false))
    → Parsed m v (b'[' ∷ s) (parse_array m (b'[' ∷ s) (parse_single_type_descriptor m s false))
unfolding parse_single_type_descriptor
array-Parsed m [] v ih = empty_array m v
array-Parsed m (c ∷ s) v ih = parse_array-Parsed m v (c ∷ s) _ (ih (omega arith))

pub parse_single-Parsed :
    (m : Mode) (s : StringView) (v : Bool)
    → 1 ≤ length s
    → Parsed m v s (parse_single_type_descriptor m s v)
unfolding parse_rest
parse_single-Parsed m [] v h = absurd (omega arith)
parse_single-Parsed m (c ∷ s) v h = elim (start m v c) [
  | starts_primitive p ↦
      letter-Parsed m c s v (field (primitive c p refl)) (primitive_state m v c p)
  | starts_void e ↦ rw e (V-Parsed m s v)
  | starts_object e ↦ rw e (
      Parsed-≡ m v _ (parse_single-begin m b'L' s v _ (object_state m v))
        (parse_object-Parsed m v s))
  | starts_array e ↦ rw e (
      Parsed-≡ m v _ (parse_single-begin m b'[' s v _ (array_state m v))
        (array-Parsed m s v (parse_single-Parsed m s false)))
  | starts_none e ↦ refused m c s v e
]

parse_field :
    (m : Mode) (v : Bool) {t : StringView}
    → IsFieldType t
    → (rest : StringView) → parse_single_type_descriptor m (t ++ rest) v ≡ ok (result t rest)
unfolding parse_rest
parse_field m v (primitive c p e) rest = rw e (letter-append m v c rest (primitive_state m v c p))
parse_field m v (IsFieldType.object c name h hs e) rest =
    rw e (
      parse_single-begin m b'L' _ v _ (object_state m v)
      ∙ parse_object-append m c name rest (h, hs))
parse_field m v (IsFieldType.array {u} d e) rest = rw e (
    parse_single-begin m b'[' _ v _ (array_state m v)
    ∙ ap (parse_array m (b'[' ∷ u ++ rest)) (parse_field m false d rest)
    ∙ parse_array-parsed m u rest (IsFieldType-nonempty d))

-- A descriptor of the grammar is split off, whatever follows it.
pub parse_single-append :
    (m : Mode) (v : Bool) (t rest : StringView)
    → IsType v t
    → parse_single_type_descriptor m (t ++ rest) v ≡ ok (result t rest)
parse_single-append m v t rest (field d) = parse_field m v d rest
parse_single-append m v t rest (void h e) =
    rw (h, e) (letter-append m true b'V' rest (void_state m))
