-- ===== src/Signature/Params/Rules.antt =====
-- The rules for the C++ function types of native methods, and that is_valid_jni_function_type decides
-- them.
use platform_libnativehelper.Base.{
  ℕ, ◌+◌, ◌≤◌, ◌<◌, ◌≡◌, refl, ◌∙◌, ◌≢◌, Bool, true, false, ◌&&◌, List, [], ◌∷◌, arith, leb, length,
}
use platform_libnativehelper.Signature.Traits.{
  JniType, NativePositionAllowed, NativeKind, kind_value, critical_native, fast_native,
  normal_native, jni_env, zeroth_position, jobject, not_jni, jboolean,
  normal_jni_calling_convention_parameter, jbyte, other, jclass, first_or_later_position,
  second_or_later_position, jchar, return_position, jshort, jint, jlong, jfloat, jdouble, CvType,
  unqualified, remove_cv, qualified,
}
use platform_libnativehelper.Signature.Params.{
  is_valid_jni_parameter, is_valid_jni_parameter_position, not_any_position,
  is_valid_jni_argument_type, convert_position_to_allowed, is_valid_jni_function_type,
  is_jni_parameter_count_valid,
}
use platform_libnativehelper.Signature.Checked.{ok}

-- A primitive type, or void (which C++ allows as a return type only).
abbrev pub is_unboxed : JniType → Bool
is_unboxed jboolean = true
is_unboxed jbyte = true
is_unboxed jchar = true
is_unboxed jshort = true
is_unboxed jint = true
is_unboxed jlong = true
is_unboxed jfloat = true
is_unboxed jdouble = true
is_unboxed JniType.void = true
is_unboxed _ = false

-- A primitive type or a reference type.
abbrev pub is_value : JniType → Bool
is_value jni_env = false
is_value JniType.void = false
is_value other = false
is_value _ = true

abbrev pub is_env : JniType → Bool
is_env jni_env = true
is_env _ = false

abbrev pub is_receiver : JniType → Bool
is_receiver jobject = true
is_receiver jclass = true
is_receiver _ = false

abbrev pub is_returned : JniType → Bool
is_returned JniType.void = true
is_returned t = is_value t

abbrev pub all : (JniType → Bool) → List JniType → Bool
all p [] = true
all p (t ∷ ts) = p t && all p ts

-- ReturnType (JNIEnv*, jclass|jobject, ArgTypes...)
abbrev pub is_regular_function : JniType → List JniType → Bool
is_regular_function ret (env ∷ receiver ∷ args) =
    is_env env && is_receiver receiver && all is_value args && is_returned ret
is_regular_function ret _ = false

-- A normal or @FastNative function, or a @CriticalNative function, which has no reference types.
abbrev pub is_native_function : NativeKind → JniType → List JniType → Bool
is_native_function normal_native ret args = is_regular_function ret args
is_native_function fast_native ret args = is_regular_function ret args
is_native_function critical_native ret args = all is_unboxed args && is_unboxed ret
is_native_function _ ret args = false

-- The three kinds of native methods.
abbrev pub IsNativeKind : NativeKind → Type 0
IsNativeKind k = 2 ≤ kind_value k

critical_parameter :
    (p : NativePositionAllowed) (t : JniType)
    → is_valid_jni_parameter critical_native p (unqualified t) ≡ ok (is_unboxed t)
unfolding is_valid_jni_parameter
critical_parameter p jboolean = refl
critical_parameter p _ = refl

-- The position of a parameter, and the types that may stand there.
abbrev is_allowed_at : NativePositionAllowed → JniType → Bool
is_allowed_at zeroth_position t = is_env t
is_allowed_at first_or_later_position t = is_receiver t
is_allowed_at second_or_later_position t = is_value t
is_allowed_at return_position t = is_returned t
is_allowed_at not_any_position t = false

normal_parameter :
    (p : NativePositionAllowed) (t : JniType)
    → p ≢ not_any_position
    → is_valid_jni_parameter normal_native p (unqualified t) ≡ ok (is_allowed_at p t)
unfolding is_valid_jni_parameter
normal_parameter not_any_position t h = absurd (h refl)
normal_parameter zeroth_position jboolean h = refl
normal_parameter zeroth_position _ h = refl
normal_parameter first_or_later_position jboolean h = refl
normal_parameter first_or_later_position _ h = refl
normal_parameter second_or_later_position jboolean h = refl
normal_parameter second_or_later_position _ h = refl
normal_parameter return_position jboolean h = refl
normal_parameter return_position _ h = refl

fast_as_normal :
    (p : NativePositionAllowed) (t : JniType)
    → is_valid_jni_parameter fast_native p (unqualified t)
      ≡ is_valid_jni_parameter normal_native p (unqualified t)
unfolding is_valid_jni_parameter is_valid_jni_parameter_position
fast_as_normal p jboolean = refl
fast_as_normal p _ = refl

regular_parameter :
    (k : NativeKind) (p : NativePositionAllowed) (t : JniType)
    → IsNativeKind k
    → k ≢ critical_native
    → p ≢ not_any_position
    → is_valid_jni_parameter k p (unqualified t) ≡ ok (is_allowed_at p t)
regular_parameter normal_native p t h n w = normal_parameter p t w
regular_parameter fast_native p t h n w = fast_as_normal p t ∙ normal_parameter p t w
regular_parameter critical_native p t h n w = absurd (n refl)
regular_parameter not_jni p t h n w = absurd (omega arith)
regular_parameter normal_jni_calling_convention_parameter p t h n w = absurd (omega arith)

-- From the third argument on every value type is allowed.
later_position : (p : ℕ) → 2 ≤ p → convert_position_to_allowed p ≡ second_or_later_position
unfolding convert_position_to_allowed
later_position p h = ground arith

later_arguments :
    (k : NativeKind) (p : ℕ) (ts : List JniType)
    → IsNativeKind k
    → k ≢ critical_native
    → 2 ≤ p
    → is_valid_jni_argument_type k p ts ≡ ok (all is_value ts)
unfolding is_valid_jni_argument_type
later_arguments k p [] h n w = refl
later_arguments k p (t ∷ []) h n w =
    rw (later_position p w)
      (ground (arith, regular_parameter k second_or_later_position t h n (λ e. cc)))
later_arguments k p (t ∷ u ∷ ts) h n w =
    rw (later_position p w, later_arguments k (p + 1) (u ∷ ts) h n (omega arith))
      (ground (arith, regular_parameter k second_or_later_position t h n (λ e. cc)))

regular_arguments :
    (k : NativeKind) (env receiver : JniType) (ts : List JniType)
    → IsNativeKind k
    → k ≢ critical_native
    → is_valid_jni_argument_type k 0 (env ∷ receiver ∷ ts)
      ≡ ok (is_env env && (is_receiver receiver && all is_value ts))
unfolding is_valid_jni_argument_type convert_position_to_allowed
regular_arguments k env receiver [] h n = ground (
  arith,
  regular_parameter k zeroth_position env h n (λ e. cc),
  regular_parameter k first_or_later_position receiver h n (λ e. cc),
)
regular_arguments k env receiver (t ∷ ts) h n =
    rw (later_arguments k 2 (t ∷ ts) h n (omega arith)) (
      ground (
        arith,
        regular_parameter k zeroth_position env h n (λ e. cc),
        regular_parameter k first_or_later_position receiver h n (λ e. cc),
      ))

critical_arguments :
    (p : ℕ) (ts : List JniType)
    → is_valid_jni_argument_type critical_native p ts ≡ ok (all is_unboxed ts)
unfolding is_valid_jni_argument_type
critical_arguments p [] = refl
critical_arguments p (t ∷ []) = rw (critical_parameter _ t) (ground arith)
critical_arguments p (t ∷ u ∷ ts) = rw (critical_parameter _ t, critical_arguments (p + 1) (u ∷ ts))

-- With fewer than two arguments the answer is no, and still no assertion fails.
short_arguments :
    (k : NativeKind) (ts : List JniType)
    → IsNativeKind k
    → k ≢ critical_native
    → length ts < 2
    → (b : Bool) × (is_valid_jni_argument_type k 0 ts ≡ ok b)
unfolding is_valid_jni_argument_type convert_position_to_allowed
short_arguments k [] h n w = (true, refl)
short_arguments k (t ∷ []) h n w = (is_env t, regular_parameter k zeroth_position t h n (λ e. cc))
short_arguments k (t ∷ u ∷ ts) h n w = absurd (omega arith)

regular_count :
    (k : NativeKind) (count : ℕ)
    → IsNativeKind k
    → k ≢ critical_native
    → is_jni_parameter_count_valid k count ≡ ok (leb 2 count)
unfolding is_jni_parameter_count_valid
regular_count normal_native count h n = refl
regular_count fast_native count h n = refl
regular_count critical_native count h n = absurd (n refl)
regular_count not_jni count h n = absurd (omega arith)
regular_count normal_jni_calling_convention_parameter count h n = absurd (omega arith)

short_function :
    (k : NativeKind) (ret : JniType) (args : List JniType)
    → IsNativeKind k
    → k ≢ critical_native
    → length args < 2
    → is_valid_jni_function_type k (unqualified ret) args ≡ ok false
unfolding is_valid_jni_function_type
short_function k ret args h n w =
    let (b, e) = short_arguments k args h n w in
    rw (regular_count k (length args) h n, regular_parameter k return_position ret h n (λ e. cc), e)
      (ground arith)

regular_function :
    (k : NativeKind) (ret : JniType) (args : List JniType)
    → IsNativeKind k
    → k ≢ critical_native
    → is_valid_jni_function_type k (unqualified ret) args ≡ ok (is_regular_function ret args)
unfolding is_valid_jni_function_type
regular_function k ret [] h n = short_function k ret [] h n (omega arith)
regular_function k ret (t ∷ []) h n = short_function k ret (t ∷ []) h n (omega arith)
regular_function k ret (env ∷ receiver ∷ ts) h n =
    rw
      (
        regular_count k _ h n,
        regular_arguments k env receiver ts h n,
        regular_parameter k return_position ret h n (λ e. cc),
      )
      (ground arith)

critical_function :
    (ret : JniType) (args : List JniType)
    → is_valid_jni_function_type critical_native (unqualified ret) args
      ≡ ok (all is_unboxed args && is_unboxed ret)
unfolding is_valid_jni_function_type is_jni_parameter_count_valid
critical_function ret args = rw (critical_parameter _ ret, critical_arguments 0 args) (ground arith)

unqualified_function :
    (k : NativeKind) (ret : JniType) (args : List JniType)
    → IsNativeKind k
    → is_valid_jni_function_type k (unqualified ret) args ≡ ok (is_native_function k ret args)
unqualified_function normal_native ret args h = regular_function _ ret args h (λ e. cc)
unqualified_function fast_native ret args h = regular_function _ ret args h (λ e. cc)
unqualified_function critical_native ret args h = critical_function ret args
unqualified_function not_jni ret args h = absurd (omega arith)
unqualified_function normal_jni_calling_convention_parameter ret args h = absurd (omega arith)

-- For each of the three kinds of native methods the check of a C++ function type ends with no failed
-- assertion and accepts exactly the function types of these rules, where a const or volatile of the
-- result type is ignored: JNIEnv*, jclass or jobject, then values, with a value or void for the
-- result, and for the critical kind only primitive types (the check takes void for one of them,
-- which no C++ parameter has).
pub is_valid_jni_function_type_lem :
    (k : NativeKind) (ret : CvType) (args : List JniType)
    → IsNativeKind k
    → is_valid_jni_function_type k ret args ≡ ok (is_native_function k (remove_cv ret) args)
unfolding is_valid_jni_function_type is_valid_jni_parameter
is_valid_jni_function_type_lem k (unqualified ret) args h = unqualified_function k ret args h
is_valid_jni_function_type_lem k (qualified ret) args h = unqualified_function k ret args h
