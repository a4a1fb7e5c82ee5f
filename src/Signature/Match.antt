-- ===== src/Signature/Match.antt =====
-- MostSimilarTypeDescriptor, CompareJniDescriptorNodeErased, MaybeMakeReifiedJniSignature and
-- MatchJniDescriptorWithFunctionType of signature_checker.h.
pub mod Similar
pub mod Table
pub mod Runs
pub mod Decides
pub mod Documented
pub mod Reified
pub mod Whole
use platform_libnativehelper.Base.{
  ℕ, zero, suc, ◌+◌, ◌-◌, ◌*◌, ◌/◌, ◌%◌, ◌^◌, ◌≤◌, ◌<◌, ◌≡◌, refl, sym, ap, ap₂, ◌∙◌, subst,
  fun_ext, ◌≢◌, ◌↔◌, ◌⊎◌, inl, inr, Bool, true, false, not, ◌&&◌, ◌||◌, Option, none, some, List,
  [], ◌∷◌, ◌++◌, map, append_assoc, append-nil, arith, ltb, leb, ◌==◌, if◌then◌else◌, ==_iff,
  Bool-cases, Option-cases, String, codes, length, take, drop, get_elem?, length-append,
  take-append, drop-append, take_all, All, All-append,
}
use platform_libnativehelper.Signature.Function.{
  JniSignatureDescriptor, FunctionSignatureDescriptor, parse_signature_as_list, push_back,
}
use platform_libnativehelper.Signature.Traits.{
  ReifiedJniTypeTrait, JniType, jni_types, trait_eq, NativeKind, reify, finality_value,
  jobject_array, jobject, final, kind_value, normal_native, not_jni, critical_native, CvType,
  traited,
}
use platform_libnativehelper.Signature.Checked.{
  ◌>>◌, Checked, Mode, ◌>>=◌, ok, halt, null, spent, x_assert, parse_assert,
}
use platform_libnativehelper.Signature.View.{StringView, view_eq, substr}
use platform_libnativehelper.Signature.Params.{is_valid_jni_function_type}

-- MATCH_EXACT_TYPE_DESCRIPTOR_FN over the types in turn.
unfoldable pub match_exact : StringView → List JniType → Option ReifiedJniTypeTrait
match_exact type_descriptor [] = none
match_exact type_descriptor (t ∷ ts) =
    if view_eq type_descriptor (reify t).type_descriptor
      && leb (kind_value normal_native) (kind_value (reify t).native_kind)
    then some (reify t)
    else match_exact type_descriptor ts

-- The first character, or NUL.
abbrev pub shorty : StringView → ℕ
shorty [] = 0
shorty (c ∷ _) = c

-- JNI arrays are covariant: any T[] with T not primitive is an Object[].
unfoldable pub match_array : StringView → Checked (Option ReifiedJniTypeTrait)
match_array type_descriptor = do
  shorty_shorty ← substr type_descriptor 0 2
  ok (
      if view_eq shorty_shorty (codes "[[") || view_eq shorty_shorty (codes "[L")
      then some (reify jobject_array)
      else none)

-- The imprecise match.
unfoldable pub match_inexact : StringView → Checked (Option ReifiedJniTypeTrait)
unfolding match_array
match_inexact type_descriptor =
    if shorty type_descriptor == b'L'
    then ok (some (reify jobject))
    else if leb 2 (length type_descriptor)
    then match_array type_descriptor
    else ok none

unfoldable pub most_similar_type_descriptor : StringView → Checked (Option ReifiedJniTypeTrait)
most_similar_type_descriptor type_descriptor = elim (match_exact type_descriptor jni_types) [
  | some t ↦ ok (some t)
  | none ↦ match_inexact type_descriptor
]

-- The comparison, once the type `user` of the descriptor is found.
unfoldable pub compare_traits : ℕ → ReifiedJniTypeTrait → ReifiedJniTypeTrait → Checked Bool
compare_traits user_shorty user derived =
    if trait_eq user derived
    then ok true
    else if view_eq derived.type_name (codes "jthrowable")
    then ok (user_shorty == b'L')
    else if view_eq derived.type_name (codes "jarray")
    then ok (user_shorty == b'[')
    else if finality_value derived.type_finality == finality_value final
        || finality_value user.type_finality == finality_value final
    then ok false
    else if user_shorty == b'['
    then ok false
    else if user_shorty == b'L'
    then ok false
    else halt

compare_similar : StringView → ReifiedJniTypeTrait → Option ReifiedJniTypeTrait → Checked Bool
compare_similar longy derived none = ok false
compare_similar longy derived (some user) = compare_traits (shorty longy) user derived

unfoldable pub compare_jni_descriptor_node_erased : StringView → ReifiedJniTypeTrait → Checked Bool
unfolding compare_similar
compare_jni_descriptor_node_erased longy derived =
    most_similar_type_descriptor longy >>= compare_similar longy derived

-- ReifyJniTypeMetafunction
unfoldable pub reify_jni_type : JniType → Checked ReifiedJniTypeTrait
reify_jni_type t = do
  x_assert (not (kind_value (reify t).native_kind == kind_value not_jni))
  ok (reify t)

-- FunctionTypeMetafunction::map_args
unfoldable pub map_args : List JniType → Checked (List ReifiedJniTypeTrait)
unfolding reify_jni_type
map_args [] = ok []
map_args (t ∷ ts) = do trait ← reify_jni_type t; traits ← map_args ts; ok (trait ∷ traits)

-- The loop that leaves out the first `skip` arguments, from `args_index` on.
unfoldable pub skip_prefix :
    ℕ
    → ℕ
    → ℕ
    → List ReifiedJniTypeTrait
    → List ReifiedJniTypeTrait
    → Checked (List ReifiedJniTypeTrait)
skip_prefix max skip args_index [] args = ok args
skip_prefix max skip args_index (arg ∷ rest) args =
    (if leb skip args_index then push_back max args arg else ok args) >>= λ args'.
    skip_prefix max skip (args_index + 1) rest args'

abbrev pub ReifiedJniSignature : Type 0
ReifiedJniSignature = FunctionSignatureDescriptor ReifiedJniTypeTrait

-- FunctionTypeMetafunction::count
abbrev pub count : List JniType → ℕ
count args = length args + 1

unfoldable pub maybe_make_reified_jni_signature :
    Mode → NativeKind → CvType → List JniType → Checked ReifiedJniSignature
unfolding reify_jni_type map_args skip_prefix
maybe_make_reified_jni_signature m native_kind ret args = do
  valid ← is_valid_jni_function_type native_kind ret args
  parse_assert m valid
  return_jni_trait ← reify_jni_type (traited ret)
  args_list ← map_args args
  kept ←
      skip_prefix (count args)
        (if kind_value native_kind == kind_value critical_native then 0 else 2) 0 args_list []
  ok (record { args = kept; ret = return_jni_trait })

-- The loop over the arguments. Both lists have one length.
unfoldable pub compare_args : List StringView → List ReifiedJniTypeTrait → Checked Bool
compare_args (node ∷ nodes) (trait ∷ traits) = do
  same ← compare_jni_descriptor_node_erased node trait
  let rest = compare_args nodes traits
  if same then rest else ok false
compare_args _ _ = ok true

compare_signatures : JniSignatureDescriptor → ReifiedJniSignature → Checked Bool
unfolding compare_args
compare_signatures user reified =
    if not (length reified.args == length user.args)
    then ok false
    else (compare_jni_descriptor_node_erased user.ret reified.ret >>= λ same.
        if same then compare_args user.args reified.args else ok false)

-- An empty optional of the two parsers makes the answer false.
false_if_null : {A : Type 0} → Checked A → (A → Checked Bool) → Checked Bool
false_if_null (ok a) next = next a
false_if_null null next = ok false
false_if_null halt next = halt
false_if_null spent next = spent

unfoldable pub match_jni_descriptor_with_function_type :
    Mode → NativeKind → CvType → List JniType → ℕ → StringView → Checked Bool
unfolding compare_signatures false_if_null
match_jni_descriptor_with_function_type m native_kind ret args max user_function_descriptor =
    false_if_null (maybe_make_reified_jni_signature m native_kind ret args) λ reified_signature.
      false_if_null (parse_signature_as_list m max user_function_descriptor)
        λ user_jni_sig_desc. compare_signatures user_jni_sig_desc reified_signature
