-- ===== src/Signature/Match/Whole.antt =====
-- MAKE_CHECKED_JNI_NATIVE_METHOD: when a function descriptor matches a C++ function type.
use platform_libnativehelper.Base.{
  ℕ, ◌≤◌, ◌≡◌, refl, sym, ap, ◌∙◌, ◌≢◌, ◌↔◌, inl, inr, Bool, true, false, ◌&&◌, List, [], ◌∷◌, map,
  arith, ◌==◌, if◌then◌else◌, if_true, if_false, Bool-cases, length, All, if_false, false≢true,
  if_true,
}
use platform_libnativehelper.Signature.Checked.{
  Mode, Checked, parse_failure, ok, halt, nonfatal, fatal,
}
use platform_libnativehelper.Signature.Match.{
  compare_args, match_jni_descriptor_with_function_type, compare_signatures, false_if_null,
}
use platform_libnativehelper.Signature.Function.{JniSignatureDescriptor, parse_signature_as_list}
use platform_libnativehelper.Signature.Traits.{
  NativeKind, JniType, reify, CvType, unqualified, qualified, remove_cv,
}
use platform_libnativehelper.Signature.View.{StringView}
use platform_libnativehelper.Signature.Descriptor.Grammar.{IsFieldType, field}
use platform_libnativehelper.Signature.Params.Rules.{is_native_function, IsNativeKind}
use platform_libnativehelper.Signature.Match.Table.{is_match}
use platform_libnativehelper.Signature.Function.RoundTrip.{
  IsSignature, parse-Outcome, printed, parse_iff, refused, read,
}
use platform_libnativehelper.Signature.Match.Reified.{
  reify_invalid, reified, reify_valid, described, length-map-reify, reify_qualified,
}
use platform_libnativehelper.Signature.Match.Decides.{compare_matches}

-- Every descriptor matches the type in its place.
abbrev pub all_match : List StringView → List JniType → Bool
all_match (d ∷ ds) (t ∷ ts) = is_match d t && all_match ds ts
all_match _ _ = true

abbrev pub signature_match : JniSignatureDescriptor → JniType → List JniType → Bool
signature_match d ret args =
    length args == length d.args && is_match d.ret ret && all_match d.args args

compare_args_lem :
    (ds : List StringView) (ts : List JniType)
    → All IsFieldType ds
    → compare_args ds (map reify ts) ≡ ok (all_match ds ts)
unfolding compare_args
compare_args_lem [] ts h = refl
compare_args_lem (d ∷ ds) [] h = refl
compare_args_lem (d ∷ ds) (t ∷ ts) h =
    rw (compare_matches false d t (field h.0), compare_args_lem ds ts h.1) (ground arith)

compare_signatures_lem :
    (d : JniSignatureDescriptor) (ret : JniType) (args : List JniType)
    → IsSignature d
    → compare_signatures d (reified ret args) ≡ ok (signature_match d ret args)
unfolding compare_signatures
compare_signatures_lem d ret args w =
    rw
      (
        compare_matches true d.ret ret w.return,
        compare_args_lem d.args args w.parameters,
        length-map-reify args,
      )
      (ground arith)

-- How a match ends that a parser refuses.
abbrev pub refused_match : Mode → Checked Bool
refused_match nonfatal = ok false
refused_match fatal = halt

false_if_null-parse_failure :
    {A : Type 0} (m : Mode) (next : A → Checked Bool)
    → false_if_null (parse_failure m) next ≡ refused_match m
unfolding false_if_null parse_failure
false_if_null-parse_failure nonfatal next = refl
false_if_null-parse_failure fatal next = refl

match_not_native :
    (m : Mode) (k : NativeKind) (ret : CvType) (args : List JniType) (max : ℕ) (s : StringView)
    → IsNativeKind k
    → is_native_function k (remove_cv ret) args ≡ false
    → match_jni_descriptor_with_function_type m k ret args max s ≡ refused_match m
unfolding match_jni_descriptor_with_function_type
match_not_native m k ret args max s h v =
    rw (reify_invalid m k ret args h v) (false_if_null-parse_failure m _)

match_unread :
    (m : Mode) (k : NativeKind) (ret : JniType) (args : List JniType) (max : ℕ) (s : StringView)
    → IsNativeKind k
    → is_native_function k ret args ≡ true
    → parse_signature_as_list m max s ≡ parse_failure m
    → match_jni_descriptor_with_function_type m k (unqualified ret) args max s ≡ refused_match m
unfolding match_jni_descriptor_with_function_type false_if_null
match_unread m k ret args max s h v e =
    rw (reify_valid m k ret args h v, e) (false_if_null-parse_failure m _)

match_read :
    (m : Mode) (k : NativeKind) (ret : JniType) (args : List JniType) (max : ℕ) (s : StringView)
    (d : JniSignatureDescriptor)
    → IsNativeKind k
    → is_native_function k ret args ≡ true
    → IsSignature d
    → parse_signature_as_list m max s ≡ ok d
    → match_jni_descriptor_with_function_type m k (unqualified ret) args max s
      ≡ ok (signature_match d ret (described k args))
unfolding match_jni_descriptor_with_function_type false_if_null
match_read m k ret args max s d h v w e =
    rw (reify_valid m k ret args h v, e) (compare_signatures_lem d ret (described k args) w)

match_qualified :
    (m : Mode) (k : NativeKind) (ret : JniType) (args : List JniType) (max : ℕ) (s : StringView)
    → IsNativeKind k
    → is_native_function k ret args ≡ true
    → match_jni_descriptor_with_function_type m k (qualified ret) args max s ≡ halt
unfolding match_jni_descriptor_with_function_type false_if_null
match_qualified m k ret args max s h v = rw (reify_qualified m k ret args h v)

abbrev pub is_qualified : CvType → Bool
is_qualified (unqualified t) = false
is_qualified (qualified t) = true

-- The descriptor `s` is the text of a signature that matches the function type.
pub record IsAccepted (k : NativeKind) (ret : CvType) (args : List JniType) (s : StringView)
    : Type 0 where
  pub is_native : is_native_function k (remove_cv ret) args ≡ true
  pub is_unqualified : is_qualified ret ≡ false
  pub signature : JniSignatureDescriptor
  pub is_signature : IsSignature signature
  pub text : s ≡ printed signature
  pub matches : signature_match signature (remove_cv ret) (described k args) ≡ true

refused_match-ne : (m : Mode) → refused_match m ≢ ok true
refused_match-ne nonfatal = λ e. cc
refused_match-ne fatal = λ e. cc

accepted :
    (m : Mode) (k : NativeKind) (ret : CvType) (args : List JniType) (max : ℕ) (s : StringView)
    → length s ≤ max
    → IsNativeKind k
    → match_jni_descriptor_with_function_type m k ret args max s ≡ ok true
    → IsAccepted k ret args s
accepted m k (qualified ret) args max s l h e = elim (Bool-cases (is_native_function k ret args)) [
  | inr n ↦
      absurd (refused_match-ne m (sym (match_not_native m k (qualified ret) args max s h n) ∙ e))
  | inl v ↦ absurd (let f = sym (match_qualified m k ret args max s h v) ∙ e in cc)
]
accepted m k (unqualified ret) args max s l h e =
    elim (Bool-cases (is_native_function k ret args)) [
      | inr n ↦
          absurd
            (refused_match-ne m (sym (match_not_native m k (unqualified ret) args max s h n) ∙ e))
      | inl v ↦ elim (parse-Outcome m max s l) [
        | refused g ↦ absurd (refused_match-ne m (sym (match_unread m k ret args max s h v g) ∙ e))
        | read d w t g ↦ record {
          is_native = v;
          is_unqualified = refl;
          signature = d;
          is_signature = w;
          text = t;
          matches = ok_true (sym (match_read m k ret args max s d h v w g) ∙ e);
        }
      ]
    ]
  where
    ok_true : {b : Bool} → ok b ≡ ok true → b ≡ true
    ok_true q = cc

accepting :
    (m : Mode) (k : NativeKind) (ret : CvType) (args : List JniType) (max : ℕ) (s : StringView)
    → length s ≤ max
    → IsNativeKind k
    → IsAccepted k ret args s
    → match_jni_descriptor_with_function_type m k ret args max s ≡ ok true
accepting m k (qualified ret) args max s l h a = absurd (false≢true (sym a.is_unqualified))
accepting m k (unqualified ret) args max s l h a =
    match_read m k ret args max s a.signature h a.is_native a.is_signature
      ((parse_iff m max s a.signature l).1 (a.is_signature, a.text))
    ∙ ap ok a.matches

-- For each kind of native method and a vector with room for every character, the check of a
-- signature against a C++ function type answers true exactly if the function type is one of a native
-- method, its result type is not const or volatile, the text is that of a signature of the grammar
-- that the parser reads, and every part is accepted for its type: a type with a descriptor of its
-- own takes only that, jobject any class but Class, String and Throwable, jthrowable any class,
-- jarray any array, and jobjectArray any array of references.
pub match_iff :
    (m : Mode) (k : NativeKind) (ret : CvType) (args : List JniType) (max : ℕ) (s : StringView)
    → length s ≤ max
    → IsNativeKind k
    → (match_jni_descriptor_with_function_type m k ret args max s ≡ ok true)
      ↔ IsAccepted k ret args s
match_iff m k ret args max s l h =
    (accepted m k ret args max s l h, accepting m k ret args max s l h)

-- The outcome that is not an answer: the X_ASSERT of ReifyJniTypeMetafunction.
abbrev pub answered : NativeKind → CvType → List JniType → Bool → Checked Bool
answered k ret args b =
    if is_qualified ret && is_native_function k (remove_cv ret) args then halt else ok b

-- With PARSE_FAILURES_NONFATAL, each kind of native method and a vector with room for every
-- character, the check of a signature answers, with no failed X_ASSERT and no loop that runs on,
-- except for a function type of a native method whose result type is const or volatile: there the
-- X_ASSERT of ReifyJniTypeMetafunction fails.
pub match_total :
    (k : NativeKind) (ret : CvType) (args : List JniType) (max : ℕ) (s : StringView)
    → length s ≤ max
    → IsNativeKind k
    → (b : Bool) × (match_jni_descriptor_with_function_type nonfatal k ret args max s
        ≡ answered k ret args b)
match_total k (qualified ret) args max s l h = elim (Bool-cases (is_native_function k ret args)) [
  | inr n ↦
      (false, match_not_native nonfatal k (qualified ret) args max s h n ∙ sym (if_false _ _ _ n))
  | inl v ↦ (false, match_qualified nonfatal k ret args max s h v ∙ sym (if_true _ _ _ v))
]
match_total k (unqualified ret) args max s l h = elim (Bool-cases (is_native_function k ret args)) [
  | inr n ↦ (false, match_not_native nonfatal k (unqualified ret) args max s h n)
  | inl v ↦ elim (parse-Outcome nonfatal max s l) [
    | refused g ↦ (false, match_unread nonfatal k ret args max s h v g)
    | read d w t g ↦ (_, match_read nonfatal k ret args max s d h v w g)
  ]
]
