-- ===== src/Signature/Descriptor.antt =====
-- ParseSingleTypeDescriptor of signature_checker.h: one type descriptor off the front of a view.
pub mod Grammar
pub mod Objects
pub mod Outcomes
use platform_libnativehelper.Base.{
  ℕ, suc, ◌+◌, Bool, true, false, not, ◌||◌, List, [], ◌∷◌, Option, none, some, ltb, leb, ◌==◌,
  if◌then◌else◌, length, codes,
}
use platform_libnativehelper.Signature.Checked.{
  Checked, ok, ◌>>=◌, ◌>>◌, x_assert, Mode, parse_failure, parse_assert,
}
use platform_libnativehelper.Signature.View.{StringView, substr, substr_from}

-- The loop of IsValidJniDescriptorStart over its array of letters.
starts_with_one_of : List ℕ → ℕ → Bool
starts_with_one_of [] shorty = false
starts_with_one_of (c ∷ starts) shorty =
    if c == shorty then true else starts_with_one_of starts shorty

unfoldable pub is_valid_jni_descriptor_start : ℕ → Bool
unfolding starts_with_one_of
is_valid_jni_descriptor_start shorty = starts_with_one_of (codes "VZBCSIJFDL[()") shorty

pub record ParseTypeDescriptorResult : Type 0 where
  pub token : StringView
  pub remainder : StringView

abbrev pub has_token : ParseTypeDescriptorResult → Bool
has_token r = ltb 0 (length r.token)

-- A node holds its non-empty long form, `longy`.
unfoldable pub as_node : ParseTypeDescriptorResult → Checked StringView
as_node r = do x_assert (has_token r); x_assert (has_token r); ok r.token

pub data State : Type 0 where
  single_character array object : State

-- The switch on the first character.
unfoldable pub first_character : Mode → ℕ → Bool → Checked State
first_character m c allow_void =
    if c == b'!'
    then parse_failure m
    else if c == b'V'
    then (parse_assert m allow_void >> ok single_character)
    else if c == b'Z'
        || c == b'B'
        || c == b'C'
        || c == b'S'
        || c == b'I'
        || c == b'J'
        || c == b'F'
        || c == b'D'
    then ok single_character
    else if c == b'L'
    then ok object
    else if c == b'['
    then ok array
    else parse_failure m

-- The loop of the state kObject from index `i`: the length up to and with the first semicolon.
unfoldable pub find_semicolon : Mode → ℕ → StringView → Checked (Option ℕ)
find_semicolon m i [] = ok none
find_semicolon m i (c ∷ s) =
    if c == b')' || c == b'(' || c == b'['
    then parse_failure m
    else if c == b';'
    then ok (some (i + 1))
    else find_semicolon m (i + 1) s

unfoldable pub cut_object : Mode → StringView → Option ℕ → Checked ParseTypeDescriptorResult
cut_object m single_type none = parse_failure m
cut_object m single_type (some semicolon_len) = do
  token ← substr single_type 0 semicolon_len
  remainder ← substr_from single_type semicolon_len
  parse_assert m (not (leb (length token) 2))
  ok (record { token = token; remainder = remainder })

-- The state kObject.
unfoldable pub parse_object : Mode → StringView → Checked ParseTypeDescriptorResult
parse_object m single_type = find_semicolon m 0 single_type >>= cut_object m single_type

-- The state kArray, after the recursive call on the component.
unfoldable pub parse_array :
    Mode → StringView → Checked ParseTypeDescriptorResult → Checked ParseTypeDescriptorResult
parse_array m single_type component = do
  res ← component
  parse_assert m (has_token res)
  token ← substr single_type 0 (length res.token + 1)
  ok (record { token = token; remainder = res.remainder })

-- The switch on the state.
unfoldable pub parse_rest :
    Mode
    → StringView
    → StringView
    → Checked ParseTypeDescriptorResult
    → State
    → Checked ParseTypeDescriptorResult
parse_rest m single_type remainder component single_character = do
  token ← substr single_type 0 1
  ok (record { token = token; remainder = remainder })
parse_rest m single_type remainder component array = parse_array m single_type component
parse_rest m single_type remainder component object = parse_object m single_type

unfoldable pub parse_single_type_descriptor :
    Mode → StringView → Bool → Checked ParseTypeDescriptorResult
parse_single_type_descriptor m [] allow_void = ok (record { token = []; remainder = [] })
parse_single_type_descriptor m (c ∷ remainder) allow_void =
    let component = parse_single_type_descriptor m remainder false in
    (parse_assert m (is_valid_jni_descriptor_start c) >> first_character m c allow_void)
    >>= λ state. parse_rest m (c ∷ remainder) remainder component state
