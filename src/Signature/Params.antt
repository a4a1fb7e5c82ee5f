-- ===== src/Signature/Params.antt =====
-- Which C++ function types are native methods: IsValidJniParameter and what calls it, in
-- signature_checker.h. A function type is its return type and the list of its argument types.
pub mod Rules
use platform_libnativehelper.Base.{
  ℕ, zero, suc, ◌+◌, ◌-◌, ◌*◌, ◌/◌, ◌%◌, ◌^◌, ◌≤◌, ◌<◌, ◌≡◌, refl, sym, ap, ap₂, ◌∙◌, subst,
  fun_ext, ◌≢◌, ◌↔◌, ◌⊎◌, inl, inr, Bool, true, false, not, ◌&&◌, ◌||◌, Option, none, some, List,
  [], ◌∷◌, ◌++◌, map, append_assoc, append-nil, arith, ltb, leb, ◌==◌, if◌then◌else◌, ==_iff,
  Bool-cases, Option-cases, String, codes, length, take, drop, get_elem?, length-append,
  take-append, drop-append, take_all, All, All-append,
}
use platform_libnativehelper.Signature.Traits.{
  NativeKind, NativePositionAllowed, kind_value, normal_jni_calling_convention_parameter,
  position_value, JniType, normal_native, reify, critical_native, fast_native, not_jni,
  zeroth_position, return_position, not_any_position, first_or_later_position,
  second_or_later_position, CvType, unqualified, remove_cv,
}
use platform_libnativehelper.Signature.Checked.{Checked, ok, x_assert, halt, ◌>>=◌, ◌>>◌}

unfoldable pub convert_position_to_allowed : ℕ → NativePositionAllowed
convert_position_to_allowed position =
    if position == 0
    then zeroth_position
    else if position == 1
    then first_or_later_position
    else second_or_later_position

abbrev is_position : NativePositionAllowed → NativePositionAllowed → Bool
is_position p q = position_value p == position_value q

abbrev is_kind : NativeKind → NativeKind → Bool
is_kind j k = kind_value j == kind_value k

unfoldable pub is_valid_jni_parameter_position :
    NativeKind → NativePositionAllowed → NativePositionAllowed → Checked Bool
is_valid_jni_parameter_position native_kind position expected_position =
    x_assert (not (is_position expected_position not_any_position))
    >> (if is_kind native_kind critical_native
        then ok true
        else if is_position expected_position return_position
        then ok (is_position position return_position)
        else if is_position position zeroth_position
            && not (is_position expected_position zeroth_position)
        then ok false
        else if is_position position first_or_later_position
            && not (is_position expected_position first_or_later_position)
        then ok false
        else if (is_position position second_or_later_position
              || is_position position return_position)
            && not (is_position expected_position first_or_later_position)
            && not (is_position expected_position second_or_later_position)
        then ok false
        else ok true)

-- The checks of IsValidJniParameter behind that of the position.
unfoldable pub is_appropriate_kind : NativeKind → NativeKind → Bool
is_appropriate_kind native_kind expected_native_kind =
    if is_kind expected_native_kind normal_jni_calling_convention_parameter
    then not (is_kind native_kind critical_native)
    else if is_kind expected_native_kind critical_native
    then true
    else if is_kind native_kind critical_native
    then false
    else true

unfoldable pub is_valid_jni_parameter : NativeKind → NativePositionAllowed → CvType → Checked Bool
unfolding is_valid_jni_parameter_position is_appropriate_kind
is_valid_jni_parameter native_kind position t =
    if is_kind (reify (remove_cv t)).native_kind not_jni
    then ok false
    else (is_valid_jni_parameter_position native_kind position
          (reify (remove_cv t)).position_allowed
        >>= λ valid.
            if valid
            then ok (is_appropriate_kind native_kind (reify (remove_cv t)).native_kind)
            else ok false)

unfoldable pub is_jni_parameter_count_valid : NativeKind → ℕ → Checked Bool
is_jni_parameter_count_valid native_kind count =
    if is_kind native_kind normal_native || is_kind native_kind fast_native
    then ok (leb 2 count)
    else if is_kind native_kind critical_native
    then ok true
    else halt

-- is_valid_jni_argument_type, its three specialisations. Both sides of its && are instantiated.
unfoldable pub is_valid_jni_argument_type : NativeKind → ℕ → List JniType → Checked Bool
is_valid_jni_argument_type native_kind position [] = ok true
is_valid_jni_argument_type native_kind position (t ∷ []) =
    is_valid_jni_parameter native_kind (convert_position_to_allowed position) (unqualified t)
is_valid_jni_argument_type native_kind position (t ∷ args) = do
  first ← is_valid_jni_parameter native_kind (convert_position_to_allowed position) (unqualified t)
  rest ← is_valid_jni_argument_type native_kind (position + 1) args
  ok (first && rest)

-- IsValidJniFunctionType and its helper.
unfoldable pub is_valid_jni_function_type : NativeKind → CvType → List JniType → Checked Bool
is_valid_jni_function_type native_kind ret args = do
  count ← is_jni_parameter_count_valid native_kind (length args)
  returns ← is_valid_jni_parameter native_kind return_position ret
  arguments ← is_valid_jni_argument_type native_kind 0 args
  ok (count && returns && arguments)
