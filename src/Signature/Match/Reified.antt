-- ===== src/Signature/Match/Reified.antt =====
-- What maybe_make_reified_jni_signature returns for a native function type.
use platform_libnativehelper.Base.{
  ℕ, suc, ◌+◌, ◌≤◌, ◌≡◌, refl, sym, ap, ◌∙◌, ◌≢◌, Bool, true, false, List, [], ◌∷◌, ◌++◌, map,
  append_assoc, append-nil, arith, ◌==◌, if◌then◌else◌, and_left, and_right, false≢true, length,
  drop, length-append, All,
}
use platform_libnativehelper.Signature.Traits.{
  JniType, NativeKind, other, reify, ReifiedJniTypeTrait, jboolean, critical_native, kind_value,
  not_jni, normal_jni_calling_convention_parameter, normal_native, fast_native, CvType, unqualified,
  qualified, remove_cv,
}
use platform_libnativehelper.Signature.Match.{
  maybe_make_reified_jni_signature, map_args, skip_prefix, reify_jni_type, ReifiedJniSignature,
  count,
}
use platform_libnativehelper.Signature.Params.Rules.{
  all, is_value, IsNativeKind, is_unboxed, is_native_function, is_valid_jni_function_type_lem,
  is_regular_function, is_env, is_receiver, is_returned,
}
use platform_libnativehelper.Signature.Checked.{Mode, ok, parse_failure, parse_failure->>=, halt}
use platform_libnativehelper.Signature.Function.{push_back}

-- The arguments that the descriptor speaks of: all but JNIEnv* and the receiver.
abbrev pub described : NativeKind → List JniType → List JniType
described critical_native args = args
described _ args = drop 2 args

abbrev pub reified : JniType → List JniType → ReifiedJniSignature
reified ret args = record { args = map reify args; ret = reify ret }

reify_jni_type_ok : (t : JniType) → t ≢ other → reify_jni_type t ≡ ok (reify t)
unfolding reify_jni_type
reify_jni_type_ok other h = absurd (h refl)
reify_jni_type_ok jboolean h = refl
reify_jni_type_ok _ h = refl

map_args_ok : (ts : List JniType) → All (λ t. t ≢ other) ts → map_args ts ≡ ok (map reify ts)
unfolding map_args
map_args_ok [] h = refl
map_args_ok (t ∷ ts) h = rw (reify_jni_type_ok t h.0, map_args_ok ts h.1)

-- Past the prefix every argument is kept, as long as the vector has room.
skip_prefix_keep :
    (max skip i : ℕ) (rest args : List ReifiedJniTypeTrait)
    → skip ≤ i
    → length args + length rest ≤ max
    → skip_prefix max skip i rest args ≡ ok (args ++ rest)
unfolding skip_prefix push_back
skip_prefix_keep max skip i [] args h k = ap ok (sym (append-nil args))
skip_prefix_keep max skip i (t ∷ rest) args h k = ground (
  arith,
  skip_prefix_keep max skip (i + 1) rest (args ++ t ∷ []),
  length-append args (t ∷ []),
  append_assoc args (t ∷ []) rest,
)

skip_prefix_two :
    (max : ℕ) (x y : ReifiedJniTypeTrait) (rest : List ReifiedJniTypeTrait)
    → length rest ≤ max
    → skip_prefix max 2 0 (x ∷ y ∷ rest) [] ≡ ok rest
unfolding skip_prefix
skip_prefix_two max x y rest h = skip_prefix_keep max 2 2 rest [] (omega arith) (omega arith)

pub length-map-reify : (ts : List JniType) → length (map reify ts) ≡ length ts
length-map-reify [] = refl
length-map-reify (t ∷ ts) = ap suc (length-map-reify ts)

-- A type of which a test holds that fails at `other` has a trait.
not_other : (p : JniType → Bool) (t : JniType) → p other ≡ false → p t ≡ true → t ≢ other
not_other p t n h = λ e. false≢true (sym n ∙ ap p (sym e) ∙ h)

all_not_other :
    (p : JniType → Bool) (ts : List JniType)
    → p other ≡ false
    → all p ts ≡ true
    → All (λ t. t ≢ other) ts
all_not_other p [] n h = tt
all_not_other p (t ∷ ts) n h =
    (not_other p t n (and_left (p t) _ h), all_not_other p ts n (and_right (p t) _ h))

-- What the reification needs of the types of a native function.
record Reifiable (k : NativeKind) (ret : JniType) (args : List JniType) : Type 0 where
  traits : All (λ t. t ≢ other) args
  return_trait : ret ≢ other
  kept :
      skip_prefix
        (count args)
        (if kind_value k == kind_value critical_native then 0 else 2)
        0
        (map reify args)
        []
      ≡ ok (map reify (described k args))

regular_traits :
    (ret env receiver : JniType) (ts : List JniType)
    → is_regular_function ret (env ∷ receiver ∷ ts) ≡ true
    → All (λ t. t ≢ other) (env ∷ receiver ∷ ts) × (ret ≢ other)
regular_traits ret env receiver ts v = (
  (
    not_other is_env env refl (ground arith),
    (
      not_other is_receiver receiver refl (ground arith),
      all_not_other is_value ts refl (ground arith),
    ),
  ),
  not_other is_returned ret refl (ground arith),
)

kept_two :
    (env receiver : JniType) (ts : List JniType)
    → skip_prefix (count (env ∷ receiver ∷ ts)) 2 0 (map reify (env ∷ receiver ∷ ts)) []
      ≡ ok (map reify ts)
kept_two env receiver ts =
    skip_prefix_two _ (reify env) (reify receiver) (map reify ts)
      (omega (arith, length-map-reify ts))

kept_all : (ts : List JniType) → skip_prefix (count ts) 0 0 (map reify ts) [] ≡ ok (map reify ts)
kept_all ts =
    skip_prefix_keep _ 0 0 (map reify ts) [] (omega arith) (omega (arith, length-map-reify ts))

native-Reifiable :
    (k : NativeKind) (ret : JniType) (args : List JniType)
    → is_native_function k ret args ≡ true
    → Reifiable k ret args
native-Reifiable not_jni ret args v = absurd (false≢true v)
native-Reifiable normal_jni_calling_convention_parameter ret args v = absurd (false≢true v)
native-Reifiable critical_native ret args v = record {
  traits = all_not_other is_unboxed args refl (and_left _ (is_unboxed ret) v);
  return_trait = not_other is_unboxed ret refl (and_right (all is_unboxed args) _ v);
  kept = kept_all args;
}
native-Reifiable normal_native ret (env ∷ receiver ∷ ts) v =
    let (all_traits, return) = regular_traits ret env receiver ts v in
    record { traits = all_traits; return_trait = return; kept = kept_two env receiver ts }
native-Reifiable fast_native ret (env ∷ receiver ∷ ts) v =
    let (all_traits, return) = regular_traits ret env receiver ts v in
    record { traits = all_traits; return_trait = return; kept = kept_two env receiver ts }
native-Reifiable normal_native ret _ v = absurd (false≢true v)
native-Reifiable fast_native ret _ v = absurd (false≢true v)

-- A native function's types are reified, less the prefix.
pub reify_valid :
    (m : Mode) (k : NativeKind) (ret : JniType) (args : List JniType)
    → IsNativeKind k
    → is_native_function k ret args ≡ true
    → maybe_make_reified_jni_signature m k (unqualified ret) args
      ≡ ok (reified ret (described k args))
unfolding maybe_make_reified_jni_signature
reify_valid m k ret args h v =
    let r = native-Reifiable k ret args v in
    rw (
      is_valid_jni_function_type_lem k (unqualified ret) args h,
      v,
      reify_jni_type_ok ret r.return_trait,
      map_args_ok args r.traits,
      r.kept,
    )

-- A qualified return type passes the checks, and then has no traits.
pub reify_qualified :
    (m : Mode) (k : NativeKind) (ret : JniType) (args : List JniType)
    → IsNativeKind k
    → is_native_function k ret args ≡ true
    → maybe_make_reified_jni_signature m k (qualified ret) args ≡ halt
unfolding maybe_make_reified_jni_signature reify_jni_type
reify_qualified m k ret args h v = rw (is_valid_jni_function_type_lem k (qualified ret) args h, v)

pub reify_invalid :
    (m : Mode) (k : NativeKind) (ret : CvType) (args : List JniType)
    → IsNativeKind k
    → is_native_function k (remove_cv ret) args ≡ false
    → maybe_make_reified_jni_signature m k ret args ≡ parse_failure m
unfolding maybe_make_reified_jni_signature
reify_invalid m k ret args h v =
    rw (is_valid_jni_function_type_lem k ret args h, v) (parse_failure->>= m _)
