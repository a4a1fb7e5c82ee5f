-- ===== src/Signature/Infer/Final.antt =====
-- signature_checker.h: the descriptors of the types that an inferred signature may have, the final
-- ones, are in the grammar, match their types and parse.
use platform_libnativehelper.Base.{
  ℕ, ◌≡◌, refl, Bool, true, ◌&&◌, [], ◌∷◌, arith, false≢true, codes, and_intro,
}
use platform_libnativehelper.Signature.Infer.{make_node, has_final_type}
use platform_libnativehelper.Signature.Traits.{
  JniType, reify, jboolean, jbyte, jchar, jshort, jint, jlong, jfloat, jdouble, jboolean_array,
  jbyte_array, jchar_array, jshort_array, jint_array, jlong_array, jfloat_array, jdouble_array,
  jclass, jstring,
}
use platform_libnativehelper.Signature.View.{view_eq, StringView}
use platform_libnativehelper.Signature.Descriptor.Grammar.{
  IsPrimitive, IsFieldType, primitive, field, IsType,
}
use platform_libnativehelper.Signature.Params.Rules.{is_value, is_returned}
use platform_libnativehelper.Signature.Match.Table.{is_match}
use platform_libnativehelper.Signature.Checked.{ok}

abbrev pub descriptor_of : JniType → StringView
descriptor_of t = (reify t).type_descriptor

abbrev pub is_final : JniType → Bool
is_final t = has_final_type (reify t)

-- A final type that may be an argument.
abbrev is_inferred : JniType → Bool
is_inferred t = is_value t && is_final t

-- What the descriptor of a final type is good for.
pub record Good (t : JniType) : Type 0 where
  pub grammar : IsFieldType (descriptor_of t)
  pub matched : is_match (descriptor_of t) t ≡ true
  pub node : make_node (descriptor_of t) ≡ ok (descriptor_of t)

good_primitive :
    (t : JniType) (c : ℕ)
    → IsPrimitive c
    → descriptor_of t ≡ c ∷ []
    → is_match (descriptor_of t) t ≡ true
    → Good t
unfolding make_node
good_primitive t c p e h = record { grammar = primitive c p e; matched = h; node = rw e }

good_array :
    (t : JniType) (c : ℕ)
    → IsPrimitive c
    → descriptor_of t ≡ b'[' ∷ c ∷ []
    → is_match (descriptor_of t) t ≡ true
    → Good t
unfolding make_node
good_array t c p e h = record {
  grammar = IsFieldType.array (primitive c p refl) e;
  matched = h;
  node = rw e;
}

pub Good-final : (t : JniType) → is_inferred t ≡ true → Good t
unfolding make_node view_eq
Good-final jboolean h = good_primitive _ b'Z' (omega arith) refl refl
Good-final jbyte h = good_primitive _ b'B' (omega arith) refl refl
Good-final jchar h = good_primitive _ b'C' (omega arith) refl refl
Good-final jshort h = good_primitive _ b'S' (omega arith) refl refl
Good-final jint h = good_primitive _ b'I' (omega arith) refl refl
Good-final jlong h = good_primitive _ b'J' (omega arith) refl refl
Good-final jfloat h = good_primitive _ b'F' (omega arith) refl refl
Good-final jdouble h = good_primitive _ b'D' (omega arith) refl refl
Good-final jboolean_array h = good_array _ b'Z' (omega arith) refl refl
Good-final jbyte_array h = good_array _ b'B' (omega arith) refl refl
Good-final jchar_array h = good_array _ b'C' (omega arith) refl refl
Good-final jshort_array h = good_array _ b'S' (omega arith) refl refl
Good-final jint_array h = good_array _ b'I' (omega arith) refl refl
Good-final jlong_array h = good_array _ b'J' (omega arith) refl refl
Good-final jfloat_array h = good_array _ b'F' (omega arith) refl refl
Good-final jdouble_array h = good_array _ b'D' (omega arith) refl refl
Good-final jclass h = record {
  grammar = IsFieldType.object b'j' (codes "ava/lang/Class") (omega arith) (omega arith) refl;
  matched = refl;
  node = refl;
}
Good-final jstring h = record {
  grammar = IsFieldType.object b'j' (codes "ava/lang/String") (omega arith) (omega arith) refl;
  matched = refl;
  node = refl;
}
Good-final _ h = absurd (false≢true h)

-- The same of a return type.
pub record GoodReturn (t : JniType) : Type 0 where
  pub grammar : IsType true (descriptor_of t)
  pub matched : is_match (descriptor_of t) t ≡ true
  pub node : make_node (descriptor_of t) ≡ ok (descriptor_of t)

Good-GoodReturn : {t : JniType} → Good t → GoodReturn t
Good-GoodReturn g = record { grammar = field g.grammar; matched = g.matched; node = g.node }

void-GoodReturn : GoodReturn JniType.void
unfolding make_node view_eq
void-GoodReturn = record { grammar = IsType.void refl refl; matched = refl; node = refl }

pub final-GoodReturn : (t : JniType) → is_returned t ≡ true → is_final t ≡ true → GoodReturn t
final-GoodReturn JniType.void h f = void-GoodReturn
final-GoodReturn t h f = Good-GoodReturn (Good-final t (and_intro (is_value t) (is_final t) h f))
