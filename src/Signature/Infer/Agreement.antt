-- ===== src/Signature/Infer/Agreement.antt =====
-- An inferred descriptor is well formed, is written out whole, and passes the check against the
-- function type that it was inferred from.
use platform_libnativehelper.Base.{
  ℕ, suc, ◌+◌, ◌≤◌, ◌≡◌, refl, sym, ap, ◌≢◌, true, List, [], ◌∷◌, ◌++◌, map, append_assoc,
  append-nil, arith, ==_iff, and_left, and_right, false≢true, length, length-append, All, and_intro,
  false,
}
use platform_libnativehelper.Signature.Infer.{
  from_function_type, infer_args, get_string, calculate_string_size, get_string_of,
}
use platform_libnativehelper.Signature.Traits.{
  JniType, reify, jboolean, NativeKind, critical_native, normal_native, fast_native, CvType,
  remove_cv, qualified, unqualified,
}
use platform_libnativehelper.Signature.View.{StringView}
use platform_libnativehelper.Signature.Descriptor.Grammar.{IsFieldType}
use platform_libnativehelper.Signature.Params.Rules.{
  is_value, all, is_unboxed, is_returned, is_native_function, IsNativeKind,
}
use platform_libnativehelper.Signature.Match.Table.{is_match}
use platform_libnativehelper.Signature.Checked.{ok, Mode}
use platform_libnativehelper.Signature.Function.{JniSignatureDescriptor}
use platform_libnativehelper.Signature.Match.Reified.{described, reify_valid}
use platform_libnativehelper.Signature.Function.Outcomes.{push_back_ok, descriptor}
use platform_libnativehelper.Signature.Match.{count, match_jni_descriptor_with_function_type}
use platform_libnativehelper.Signature.Function.RoundTrip.{printed}
use platform_libnativehelper.Signature.Match.Whole.{is_qualified, all_match, IsAccepted, match_iff}
use platform_libnativehelper.Signature.Infer.Text.{fill_string_lem}
use platform_libnativehelper.Signature.Infer.Final.{
  descriptor_of, Good, final-GoodReturn, is_final, Good-final,
}

-- A function type from which a descriptor can be inferred: one of a native method, of final types
-- only, with a result type that is not qualified, and with no argument of type void.
pub record IsInferable (k : NativeKind) (ret : CvType) (args : List JniType) : Type 0 where
  pub is_native : is_native_function k (remove_cv ret) args ≡ true
  pub is_unqualified : is_qualified ret ≡ false
  pub final_return : is_final (remove_cv ret) ≡ true
  pub final_args : all is_final (described k args) ≡ true
  pub no_void : All (λ t. t ≢ JniType.void) (described k args)

abbrev pub inferred : NativeKind → CvType → List JniType → JniSignatureDescriptor
inferred k ret args =
    descriptor (map descriptor_of (described k args)) (descriptor_of (remove_cv ret))

unboxed-value : (t : JniType) → is_unboxed t ≡ true → t ≢ JniType.void → is_value t ≡ true
unboxed-value JniType.void h n = absurd (n refl)
unboxed-value jboolean h n = refl
unboxed-value _ h n = ground arith

unboxed-returned : (t : JniType) → is_unboxed t ≡ true → is_returned t ≡ true
unboxed-returned jboolean h = refl
unboxed-returned _ h = ground arith

all_values :
    (ts : List JniType)
    → all is_unboxed ts ≡ true
    → All (λ t. t ≢ JniType.void) ts
    → all is_value ts ≡ true
all_values [] h n = refl
all_values (t ∷ ts) h n = rw (
  unboxed-value t (and_left (is_unboxed t) _ h) n.0,
  all_values ts (and_right (is_unboxed t) _ h) n.1,
)

described_values :
    (k : NativeKind) (ret : CvType) (args : List JniType)
    → IsInferable k ret args
    → (all is_value (described k args) ≡ true) × (is_returned (remove_cv ret) ≡ true)
described_values k ret args i = go k args i.is_native i.no_void
  where
    go :
        (j : NativeKind) (us : List JniType)
        → is_native_function j (remove_cv ret) us ≡ true
        → All (λ t. t ≢ JniType.void) (described j us)
        → (all is_value (described j us) ≡ true) × (is_returned (remove_cv ret) ≡ true)
    go critical_native us h n = (
      all_values us (and_left _ (is_unboxed (remove_cv ret)) h) n,
      unboxed-returned (remove_cv ret) (and_right (all is_unboxed us) _ h),
    )
    go normal_native (e ∷ r ∷ ts) h n = (ground arith, ground arith)
    go fast_native (e ∷ r ∷ ts) h n = (ground arith, ground arith)
    go normal_native _ h n = absurd (false≢true h)
    go fast_native _ h n = absurd (false≢true h)
    go _ us h n = absurd (false≢true h)

all_good : (ts : List JniType) → all is_value ts ≡ true → all is_final ts ≡ true → All Good ts
all_good [] h f = tt
all_good (t ∷ ts) h f = (
  Good-final t (rw (and_left (is_value t) _ h, and_left (is_final t) _ f)),
  all_good ts (and_right (is_value t) _ h) (and_right (is_final t) _ f),
)

infer_args_lem :
    (m : Mode) (max : ℕ) (ts : List JniType) (args : List StringView)
    → All Good ts
    → all is_final ts ≡ true
    → length args + length ts ≤ max
    → infer_args m max (map reify ts) args ≡ ok (args ++ map descriptor_of ts)
unfolding infer_args
infer_args_lem m max [] args g f h = ap ok (sym (append-nil args))
infer_args_lem m max (t ∷ ts) args g f h =
    rw
      (
        and_left (is_final t) _ f,
        g.0.node,
        push_back_ok max args (descriptor_of t) (omega arith),
        infer_args_lem m max ts (args ++ descriptor_of t ∷ []) g.1 (and_right (is_final t) _ f)
            (omega (arith, length-append args (descriptor_of t ∷ []))),
      )
      (ap ok (append_assoc args (descriptor_of t ∷ []) (map descriptor_of ts)))

-- The prefix that is left out only makes the list shorter.
length-described-le :
    (k : NativeKind) (args : List JniType) → length (described k args) ≤ length args
length-described-le critical_native args = omega arith
length-described-le normal_native [] = omega arith
length-described-le _ [] = omega arith
length-described-le normal_native (t ∷ []) = omega arith
length-described-le _ (t ∷ []) = omega arith
length-described-le _ (t ∷ u ∷ ts) = omega arith

pub from_function_type_lem :
    (m : Mode) (k : NativeKind) (ret : CvType) (args : List JniType)
    → IsNativeKind k
    → IsInferable k ret args
    → from_function_type m k ret args ≡ ok (inferred k ret args)
unfolding from_function_type
from_function_type_lem m k (qualified ret) args h i = absurd (false≢true (sym i.is_unqualified))
from_function_type_lem m k (unqualified ret) args h i =
    let (values, returned) = described_values k (unqualified ret) args i in
    rw (
      reify_valid m k ret args h i.is_native,
      i.final_return,
      (final-GoodReturn ret returned i.final_return).node,
      infer_args_lem m (count args) (described k args) []
          (all_good (described k args) values i.final_args) i.final_args
          (omega (arith, length-described-le k args)),
    )

get_string_lem :
    (m : Mode) (k : NativeKind) (ret : CvType) (args : List JniType) (d : JniSignatureDescriptor)
    → from_function_type m k ret args ≡ ok d
    → get_string m k ret args ≡ ok (printed d ++ 0 ∷ [])
unfolding get_string calculate_string_size get_string_of
get_string_lem m k ret args d e = rw e (fill_string_lem d)

-- For a native function type as in match-inferred, GetString writes the inferred signature and a NUL
-- into its array: no write is out of bounds, and the size that CalculateStringSize found is the one
-- reached.
pub get_string-inferred :
    (m : Mode) (k : NativeKind) (ret : CvType) (args : List JniType)
    → IsNativeKind k
    → IsInferable k ret args
    → get_string m k ret args ≡ ok (printed (inferred k ret args) ++ 0 ∷ [])
get_string-inferred m k ret args h i =
    get_string_lem m k ret args _ (from_function_type_lem m k ret args h i)

length-map_descriptor : (ts : List JniType) → length (map descriptor_of ts) ≡ length ts
length-map_descriptor [] = refl
length-map_descriptor (t ∷ ts) = ap suc (length-map_descriptor ts)

good_fields : (ts : List JniType) → All Good ts → All IsFieldType (map descriptor_of ts)
good_fields [] g = tt
good_fields (t ∷ ts) g = (g.0.grammar, good_fields ts g.1)

good_matches : (ts : List JniType) → All Good ts → all_match (map descriptor_of ts) ts ≡ true
good_matches [] g = refl
good_matches (t ∷ ts) g =
    and_intro (is_match (descriptor_of t) t) _ g.0.matched (good_matches ts g.1)

-- The text that is inferred for a function type passes the check against that function type.
pub inferred-IsAccepted :
    (k : NativeKind) (ret : CvType) (args : List JniType)
    → IsInferable k ret args
    → IsAccepted k ret args (printed (inferred k ret args))
inferred-IsAccepted k ret args i =
    let (values, returned) = described_values k ret args i in
    let good = all_good (described k args) values i.final_args in
    let good_ret = final-GoodReturn (remove_cv ret) returned i.final_return in
    record {
      is_native = i.is_native;
      is_unqualified = i.is_unqualified;
      signature = inferred k ret args;
      is_signature = record {
        parameters = good_fields (described k args) good;
        return = good_ret.grammar;
      };
      text = refl;
      matches =
          rw
            (
              length-map_descriptor (described k args),
              (==_iff (length (described k args)) _).1 refl,
              good_ret.matched,
            )
            (good_matches (described k args) good);
    }

-- The signature that is inferred for a native function type of final types (with a result type that
-- is not const or volatile, and no argument of type void) passes the check against that function
-- type.
pub match-inferred :
    (m : Mode) (k : NativeKind) (ret : CvType) (args : List JniType) (max : ℕ)
    → IsNativeKind k
    → IsInferable k ret args
    → length (printed (inferred k ret args)) ≤ max
    → match_jni_descriptor_with_function_type m k ret args max (printed (inferred k ret args))
      ≡ ok true
match-inferred m k ret args max h i l =
    (match_iff m k ret args max _ l h).1 (inferred-IsAccepted k ret args i)
