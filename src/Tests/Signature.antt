-- ===== src/Tests/Signature.antt =====
-- signature_checker.h at concrete inputs.
use platform_libnativehelper.Base.{
  ◌≡◌, refl, ◌≢◌, ◌↔◌, Bool, true, false, [], ◌∷◌, ◌++◌, arith, codes, some,
}
use platform_libnativehelper.Signature.Function.RoundTrip.{
  IsSignature, parse-printed, printed, parse_iff, parse_refused_iff,
}
use platform_libnativehelper.Signature.Function.{JniSignatureDescriptor, parse_signature_as_list}
use platform_libnativehelper.Signature.Match.{
  compare_jni_descriptor_node_erased, match_jni_descriptor_with_function_type,
}
use platform_libnativehelper.Signature.Params.{is_valid_jni_function_type}
use platform_libnativehelper.Signature.Infer.Agreement.{
  IsInferable, match-inferred, get_string-inferred,
}
use platform_libnativehelper.Signature.Infer.{get_string}
use platform_libnativehelper.Signature.Traits.{
  critical_native, reify, fast_native, jint, normal_native, jstring, jni_env, JniType, jlong,
  jclass, jobject, jobject_array, jint_array, unqualified, qualified, jthrowable,
}
use platform_libnativehelper.Signature.Checked.{nonfatal, fatal, ok, parse_failure, halt}
use platform_libnativehelper.Signature.Function.Outcomes.{descriptor}
use platform_libnativehelper.Signature.Descriptor.Grammar.{primitive, IsFieldType, IsType, field}
use platform_libnativehelper.Signature.Match.Decides.{compare_jni_descriptor_node_erased_lem}
use platform_libnativehelper.Signature.Match.Whole.{match_total, IsAccepted, match_iff, answered}
use platform_libnativehelper.Signature.Params.Rules.{is_valid_jni_function_type_lem}
use platform_libnativehelper.Signature.View.{view_eq}
use platform_libnativehelper.Signature.Macros.{
  Program, fast_native_method_autosig, make_checked_jni_native_method, NativeFunction,
  make_method_old, fast_native_method,
}
use platform_libnativehelper.Signature.Macros.Rows.{make_checked_iff, autosig_lem}
use platform_libnativehelper.Signature.Match.Table.{is_match, is_divergent, is_documented}
use platform_libnativehelper.Signature.Match.Documented.{flipped}

abbrev void_of_int : JniSignatureDescriptor
void_of_int = descriptor (codes "I" ∷ codes "[Ljava/lang/String;" ∷ []) (codes "V")

void_of_int-IsSignature : IsSignature void_of_int
void_of_int-IsSignature = record {
  parameters = (
    primitive b'I' (omega arith) refl,
    (
      IsFieldType.array
          (IsFieldType.object b'j' (codes "ava/lang/String") (omega arith) (omega arith) refl) refl,
      tt,
    ),
  );
  return = IsType.void refl refl;
}

match_iff_example :
    (match_jni_descriptor_with_function_type fatal normal_native
        (unqualified JniType.void)
        (jni_env ∷ jclass ∷ jint ∷ jobject_array ∷ [])
        30
        (codes "(I[Ljava/lang/String;)V")
      ≡ ok true)
    ↔ IsAccepted normal_native
        (unqualified JniType.void)
        (jni_env ∷ jclass ∷ jint ∷ jobject_array ∷ [])
        (codes "(I[Ljava/lang/String;)V")
match_iff_example =
    match_iff fatal normal_native (unqualified JniType.void)
      (jni_env ∷ jclass ∷ jint ∷ jobject_array ∷ []) 30 (codes "(I[Ljava/lang/String;)V")
      (omega arith) (omega arith)

matched :
    match_jni_descriptor_with_function_type fatal normal_native
      (unqualified JniType.void)
      (jni_env ∷ jclass ∷ jint ∷ jobject_array ∷ [])
      30
      (codes "(I[Ljava/lang/String;)V")
    ≡ ok true
matched = match_iff_example.1 (record {
  is_native = refl;
  is_unqualified = refl;
  signature = void_of_int;
  is_signature = void_of_int-IsSignature;
  text = refl;
  matches = unfold view_eq in refl;
})

parse_iff_example :
    (parse_signature_as_list nonfatal 30 (codes "(I[Ljava/lang/String;)V") ≡ ok void_of_int)
    ↔ (IsSignature void_of_int × (codes "(I[Ljava/lang/String;)V" ≡ printed void_of_int))
parse_iff_example =
    parse_iff nonfatal 30 (codes "(I[Ljava/lang/String;)V") void_of_int (omega arith)

parse_refused_iff_example :
    (parse_signature_as_list nonfatal 30 (codes "(I") ≡ parse_failure nonfatal)
    ↔ ((d : JniSignatureDescriptor) → IsSignature d → codes "(I" ≢ printed d)
parse_refused_iff_example = parse_refused_iff nonfatal 30 (codes "(I") (omega arith)

parse-printed_example :
    parse_signature_as_list nonfatal 2 (codes "(I[Ljava/lang/String;)V") ≡ ok void_of_int
parse-printed_example = parse-printed nonfatal 2 void_of_int void_of_int-IsSignature (omega arith)

is_valid_jni_function_type_lem_example :
    is_valid_jni_function_type critical_native (unqualified jint) (jlong ∷ jobject ∷ []) ≡ ok false
is_valid_jni_function_type_lem_example =
    is_valid_jni_function_type_lem critical_native (unqualified jint) (jlong ∷ jobject ∷ [])
      (omega arith)

compare_jni_descriptor_node_erased_lem_example :
    (compare_jni_descriptor_node_erased (codes "Ljava/lang/String;") (reify jthrowable)
      ≡ ok (is_match (codes "Ljava/lang/String;") jthrowable))
    × (is_match (codes "Ljava/lang/String;") jthrowable
        ≡ flipped
            (is_divergent (codes "Ljava/lang/String;") jthrowable)
            (is_documented (codes "Ljava/lang/String;") jthrowable))
compare_jni_descriptor_node_erased_lem_example =
    compare_jni_descriptor_node_erased_lem false (codes "Ljava/lang/String;") jthrowable
      (field (IsFieldType.object b'j' (codes "ava/lang/String") (omega arith) (omega arith) refl))

string_as_throwable :
    compare_jni_descriptor_node_erased (codes "Ljava/lang/String;") (reify jthrowable) ≡ ok true
string_as_throwable = compare_jni_descriptor_node_erased_lem_example.0

inferable :
    IsInferable fast_native (unqualified jstring) (jni_env ∷ jobject ∷ jint_array ∷ jint ∷ [])
inferable = record {
  is_native = refl;
  is_unqualified = refl;
  final_return = refl;
  final_args = refl;
  no_void = ((λ e. cc), ((λ e. cc), tt));
}

get_string-inferred_example :
    get_string fatal fast_native (unqualified jstring) (jni_env ∷ jobject ∷ jint_array ∷ jint ∷ [])
    ≡ ok (codes "([II)Ljava/lang/String;" ++ 0 ∷ [])
get_string-inferred_example =
    get_string-inferred fatal fast_native (unqualified jstring)
      (jni_env ∷ jobject ∷ jint_array ∷ jint ∷ []) (omega arith) inferable

match-inferred_example :
    match_jni_descriptor_with_function_type fatal fast_native
      (unqualified jstring)
      (jni_env ∷ jobject ∷ jint_array ∷ jint ∷ [])
      30
      (codes "([II)Ljava/lang/String;")
    ≡ ok true
match-inferred_example =
    match-inferred fatal fast_native (unqualified jstring)
      (jni_env ∷ jobject ∷ jint_array ∷ jint ∷ []) 30 (omega arith) inferable (omega arith)

match_total_example :
    (b : Bool) × (match_jni_descriptor_with_function_type nonfatal fast_native
        (unqualified jint)
        (jni_env ∷ jobject ∷ [])
        9
        (codes "()II")
      ≡ answered fast_native (unqualified jint) (jni_env ∷ jobject ∷ []) b)
match_total_example =
    match_total fast_native (unqualified jint) (jni_env ∷ jobject ∷ []) 9 (codes "()II")
      (omega arith) (omega arith)

abbrev fast_function : NativeFunction
fast_function = record {
  ret = unqualified jstring;
  args = jni_env ∷ jobject ∷ jint_array ∷ jint ∷ [];
  address = 4096;
}

abbrev fast_program : Program
fast_program = record { declared = λ name. some fast_function }

autosig_lem_example :
    (fast_native_method_autosig fatal fast_program (codes "A") (codes "f")
      ≡ ok (make_method_old (codes "f") (codes "([II)Ljava/lang/String;") fast_function))
    × (fast_native_method fatal fast_program
          (codes "A")
          (codes "f")
          (codes "([II)Ljava/lang/String;")
        ≡ fast_native_method_autosig fatal fast_program (codes "A") (codes "f"))
autosig_lem_example =
    autosig_lem fatal fast_native fast_program (codes "A") (codes "f") fast_function (omega arith)
      refl inferable

make_checked_iff_example :
    (make_checked_jni_native_method fatal fast_native (codes "f") (codes "()V") fast_function
      ≡ ok (make_method_old (codes "f") (codes "()V") fast_function))
    ↔ (IsAccepted fast_native
          (unqualified jstring)
          (jni_env ∷ jobject ∷ jint_array ∷ jint ∷ [])
          (codes "()V")
        × (make_method_old (codes "f") (codes "()V") fast_function
            ≡ make_method_old (codes "f") (codes "()V") fast_function))
make_checked_iff_example =
    make_checked_iff fatal fast_native (codes "f") (codes "()V") fast_function
      (make_method_old (codes "f") (codes "()V") fast_function) (omega arith)

-- A qualified result type passes the check of the function type, and ends the compilation.
constant_result :
    (is_valid_jni_function_type normal_native (qualified jint) (jni_env ∷ jobject ∷ []) ≡ ok true)
    × (match_jni_descriptor_with_function_type nonfatal normal_native
          (qualified jint)
          (jni_env ∷ jobject ∷ [])
          9
          (codes "()I")
        ≡ halt)
constant_result = (
  is_valid_jni_function_type_lem normal_native (qualified jint) (jni_env ∷ jobject ∷ [])
      (omega arith),
  (match_total normal_native (qualified jint) (jni_env ∷ jobject ∷ []) 9 (codes "()I") (omega arith)
      (omega arith)).1,
)
