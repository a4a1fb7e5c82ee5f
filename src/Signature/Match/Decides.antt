-- ===== src/Signature/Match/Decides.antt =====
-- compare_jni_descriptor_node_erased decides is_match.
use platform_libnativehelper.Base.{
  ◌≡◌, refl, sym, ap, ◌∙◌, inl, inr, Bool, true, false, some, ◌∷◌, arith, Bool-cases, codes,
}
use platform_libnativehelper.Signature.Match.{
  compare_traits, compare_jni_descriptor_node_erased, most_similar_type_descriptor, shorty,
}
use platform_libnativehelper.Signature.Match.Runs.{
  is_one_of, classes, letter-Agrees, class-Agrees, letter_array-Agrees, void-Agrees,
}
use platform_libnativehelper.Signature.View.{StringView, view_eq}
use platform_libnativehelper.Signature.Traits.{
  JniType, trait_eq, reify, jobject_array, jobject, jarray, jthrowable, jni_env, other, jclass,
  jstring,
}
use platform_libnativehelper.Signature.Descriptor.Grammar.{IsFieldType, IsType, primitive, field}
use platform_libnativehelper.Signature.Match.Table.{is_match, Agrees, is_divergent, is_documented}
use platform_libnativehelper.Signature.Match.Similar.{
  view_eq-starts_with, similar_reference_array, similar_nested_array, similar_object,
}
use platform_libnativehelper.Signature.Checked.{ok}
use platform_libnativehelper.Signature.Match.Documented.{flipped, is_match-flipped}

-- The comparison with the type `a` that was found for `d`.
compare_found :
    (d : StringView) (a t : JniType)
    → most_similar_type_descriptor d ≡ ok (some (reify a))
    → compare_jni_descriptor_node_erased d (reify t) ≡ compare_traits (shorty d) (reify a) (reify t)
unfolding compare_jni_descriptor_node_erased
compare_found d a t e = rw e

-- The types that match an array of objects or of arrays.
abbrev matches_object_array : JniType → Bool
matches_object_array jobject_array = true
matches_object_array jarray = true
matches_object_array _ = false

traits_object_array :
    (t : JniType)
    → compare_traits b'[' (reify jobject_array) (reify t) ≡ ok (matches_object_array t)
unfolding compare_traits trait_eq view_eq
traits_object_array jobject_array = refl
traits_object_array _ = refl

match_reference_array :
    (s : StringView) (t : JniType) → matches_object_array t ≡ is_match (b'[' ∷ b'L' ∷ s) t
match_reference_array s jobject = refl
match_reference_array s jthrowable = refl
match_reference_array s jarray = refl
match_reference_array s jobject_array = refl
match_reference_array s jni_env = refl
match_reference_array s other = refl
match_reference_array s _ = sym (view_eq-starts_with (codes "[L") s _ refl)

match_nested_array :
    (s : StringView) (t : JniType) → matches_object_array t ≡ is_match (b'[' ∷ b'[' ∷ s) t
match_nested_array s jobject = refl
match_nested_array s jthrowable = refl
match_nested_array s jarray = refl
match_nested_array s jobject_array = refl
match_nested_array s jni_env = refl
match_nested_array s other = refl
match_nested_array s _ = sym (view_eq-starts_with (codes "[[") s _ refl)

-- The types that match a class with no type of its own.
abbrev matches_object : JniType → Bool
matches_object jobject = true
matches_object jthrowable = true
matches_object _ = false

traits_object :
    (t : JniType) → compare_traits b'L' (reify jobject) (reify t) ≡ ok (matches_object t)
unfolding compare_traits trait_eq view_eq
traits_object jobject = refl
traits_object _ = refl

match_object :
    (s : StringView) (t : JniType)
    → view_eq (b'L' ∷ s) (codes "Ljava/lang/Class;") ≡ false
    → view_eq (b'L' ∷ s) (codes "Ljava/lang/String;") ≡ false
    → view_eq (b'L' ∷ s) (codes "Ljava/lang/Throwable;") ≡ false
    → matches_object t ≡ is_match (b'L' ∷ s) t
match_object s jobject n₁ n₂ n₃ = rw (n₁, n₂, n₃)
match_object s jthrowable n₁ n₂ n₃ = refl
match_object s jarray n₁ n₂ n₃ = refl
match_object s jobject_array n₁ n₂ n₃ = refl
match_object s jni_env n₁ n₂ n₃ = refl
match_object s other n₁ n₂ n₃ = refl
match_object s jclass n₁ n₂ n₃ = sym n₁
match_object s jstring n₁ n₂ n₃ = sym n₂
match_object s _ n₁ n₂ n₃ = sym (view_eq-starts_with (codes "L") s _ refl)

jobject-Agrees : (s : StringView) → is_one_of classes (b'L' ∷ s) ≡ false → Agrees (b'L' ∷ s)
unfolding is_one_of
jobject-Agrees s h t =
    let n₁ : view_eq (b'L' ∷ s) (codes "Ljava/lang/Class;") ≡ false = ground arith in
    let n₂ : view_eq (b'L' ∷ s) (codes "Ljava/lang/String;") ≡ false = ground arith in
    let n₃ : view_eq (b'L' ∷ s) (codes "Ljava/lang/Throwable;") ≡ false = ground arith in
    compare_found _ jobject t (similar_object s ∙ rw (n₁, n₂, n₃))
    ∙ traits_object t
    ∙ ap ok (match_object s t n₁ n₂ n₃)

object-Agrees : (s : StringView) → Agrees (b'L' ∷ s)
object-Agrees s = elim (Bool-cases (is_one_of classes (b'L' ∷ s))) [
  | inl e ↦ class-Agrees (b'L' ∷ s) e
  | inr n ↦ jobject-Agrees s n
]

reference_array-Agrees : (s : StringView) → Agrees (b'[' ∷ b'L' ∷ s)
reference_array-Agrees s t =
    compare_found _ jobject_array t (similar_reference_array s)
    ∙ traits_object_array t
    ∙ ap ok (match_reference_array s t)

nested_array-Agrees : (s : StringView) → Agrees (b'[' ∷ b'[' ∷ s)
nested_array-Agrees s t =
    compare_found _ jobject_array t (similar_nested_array s)
    ∙ traits_object_array t
    ∙ ap ok (match_nested_array s t)

array-Agrees : {u : StringView} → IsFieldType u → Agrees (b'[' ∷ u)
array-Agrees (primitive c p e) = rw e (letter_array-Agrees c p)
array-Agrees (IsFieldType.object c name h hs e) = rw e (reference_array-Agrees _)
array-Agrees (IsFieldType.array d e) = rw e (nested_array-Agrees _)

field-Agrees : {d : StringView} → IsFieldType d → Agrees d
field-Agrees (primitive c p e) = rw e (letter-Agrees c p)
field-Agrees (IsFieldType.object c name h hs e) = rw e (object-Agrees _)
field-Agrees (IsFieldType.array d e) = rw e (array-Agrees d)

pub compare_matches :
    (v : Bool) (d : StringView) (t : JniType)
    → IsType v d
    → compare_jni_descriptor_node_erased d (reify t) ≡ ok (is_match d t)
compare_matches v d t (field w) = field-Agrees w t
compare_matches v d t (IsType.void h e) = rw e (void-Agrees t)

-- A type descriptor that parses is compared with a C++ type with no failed assertion; it is accepted
-- for a type with a descriptor of its own only if it is that one, for jobject if it is of a class
-- but Class, String and Throwable, for jthrowable if of any class, for jarray if of any array, for
-- jobjectArray if of an array of references; and that differs from the table in the comment of
-- jni_macros.h exactly on Throwable for jobject, on Class and String for jthrowable, and on the
-- arrays for jarray.
pub compare_jni_descriptor_node_erased_lem :
    (v : Bool) (d : StringView) (t : JniType)
    → IsType v d
    → (compare_jni_descriptor_node_erased d (reify t) ≡ ok (is_match d t))
      × (is_match d t ≡ flipped (is_divergent d t) (is_documented d t))
compare_jni_descriptor_node_erased_lem v d t w = (compare_matches v d t w, is_match-flipped d t)
