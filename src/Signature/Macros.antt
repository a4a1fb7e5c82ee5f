-- ===== src/Signature/Macros.antt =====
-- jni_macros.h: the macros that make the row of a native method, with the two macros of
-- signature_checker.h that they stand on.
pub mod Rows
use platform_libnativehelper.Signature.Checked.{◌>>=◌, ◌>>◌, Mode, Checked, halt, ok, x_assert}
use platform_libnativehelper.Base.{
  >>=-returned, bind_returned, some_not_none, if_true, if_false, IsReturned, aborted≢returned,
  returned_injective, crashed, same_string, same_string_sound, Outcome, aborted, returned, ℕ, zero,
  suc, ◌+◌, ◌-◌, ◌*◌, ◌/◌, ◌%◌, ◌^◌, ◌≤◌, ◌<◌, ◌≡◌, refl, sym, ap, ap₂, ◌∙◌, subst, fun_ext, ◌≢◌,
  ◌↔◌, ◌⊎◌, inl, inr, Bool, true, false, not, ◌&&◌, ◌||◌, Option, none, some, List, [], ◌∷◌, ◌++◌,
  map, append_assoc, append-nil, arith, ltb, leb, ◌==◌, if◌then◌else◌, ==_iff, Bool-cases, and_left,
  and_right, and_intro, false≢true, Option-cases, String, codes, length, take, drop, get_elem?,
  length-append, take-append, drop-append, take_all, All, All-append,
}
use platform_libnativehelper.Signature.Traits.{
  JniType, fast_native, critical_native, normal_native, NativeKind, CvType,
}
use platform_libnativehelper.Signature.Infer.{get_string}
use platform_libnativehelper.Signature.Match.{match_jni_descriptor_with_function_type}

-- The type of a C++ function, and its address.
pub record NativeFunction : Type 0 where
  pub ret : CvType
  pub args : List JniType
  pub address : ℕ

-- JNINativeMethod. A signature is its characters and a NUL.
pub record JniNativeMethod : Type 0 where
  pub name : List ℕ
  pub signature : List ℕ
  pub fn_ptr : ℕ

-- The functions that are declared where a macro stands; any other name ends the compilation.
pub record Program : Type 0 where
  pub declared : List ℕ → Option NativeFunction

abbrev pub found : Option NativeFunction → Checked NativeFunction
found none = halt
found (some fn) = ok fn

-- MAKE_CHECKED_JNI_NATIVE_METHOD. The size of the literal counts its NUL.
unfoldable pub make_checked_jni_native_method :
    Mode → NativeKind → List ℕ → List ℕ → NativeFunction → Checked JniNativeMethod
make_checked_jni_native_method m native_kind name signature fn = do
  matches ←
      match_jni_descriptor_with_function_type m native_kind fn.ret fn.args (length signature + 1)
        signature
  x_assert matches
  ok (record { name = name; signature = signature ++ (0 ∷ []); fn_ptr = fn.address })

-- MAKE_INFERRED_JNI_NATIVE_METHOD
unfoldable pub make_inferred_jni_native_method :
    Mode → NativeKind → List ℕ → NativeFunction → Checked JniNativeMethod
make_inferred_jni_native_method m native_kind name fn = do
  signature ← get_string m native_kind fn.ret fn.args
  ok (record { name = name; signature = signature; fn_ptr = fn.address })

-- _NATIVEHELPER_JNI_MAKE_METHOD_OLD, before C++14.
unfoldable pub make_method_old : List ℕ → List ℕ → NativeFunction → JniNativeMethod
make_method_old name signature fn = record {
  name = name;
  signature = signature ++ (0 ∷ []);
  fn_ptr = fn.address;
}

unfoldable pub make_jni_native_method :
    Mode → List ℕ → List ℕ → NativeFunction → Checked JniNativeMethod
make_jni_native_method m name signature function =
    make_checked_jni_native_method m normal_native name signature function

unfoldable pub make_jni_fast_native_method :
    Mode → List ℕ → List ℕ → NativeFunction → Checked JniNativeMethod
make_jni_fast_native_method m name signature function =
    make_checked_jni_native_method m fast_native name signature function

unfoldable pub make_jni_critical_native_method :
    Mode → List ℕ → List ℕ → NativeFunction → Checked JniNativeMethod
make_jni_critical_native_method m name signature function =
    make_checked_jni_native_method m critical_native name signature function

unfoldable pub make_jni_native_method_autosig :
    Mode → List ℕ → NativeFunction → Checked JniNativeMethod
make_jni_native_method_autosig m name function =
    make_inferred_jni_native_method m normal_native name function

unfoldable pub make_jni_fast_native_method_autosig :
    Mode → List ℕ → NativeFunction → Checked JniNativeMethod
make_jni_fast_native_method_autosig m name function =
    make_inferred_jni_native_method m fast_native name function

unfoldable pub make_jni_critical_native_method_autosig :
    Mode → List ℕ → NativeFunction → Checked JniNativeMethod
make_jni_critical_native_method_autosig m name function =
    make_inferred_jni_native_method m critical_native name function

-- className ## _ ## functionName
abbrev pub pasted : List ℕ → List ℕ → List ℕ
pasted class_name function_name = class_name ++ (b'_' ∷ function_name)

module _ (m : Mode) (p : Program) where
  unfoldable pub native_method : List ℕ → List ℕ → List ℕ → Checked JniNativeMethod
  native_method class_name function_name signature = do
    fn ← found (p.declared (pasted class_name function_name))
    make_jni_native_method m function_name signature fn

  unfoldable pub overloaded_native_method :
      List ℕ → List ℕ → List ℕ → List ℕ → Checked JniNativeMethod
  overloaded_native_method class_name function_name signature identifier = do
    fn ← found (p.declared (pasted class_name identifier))
    make_jni_native_method m function_name signature fn

  unfoldable pub native_method_autosig : List ℕ → List ℕ → Checked JniNativeMethod
  native_method_autosig class_name function_name = do
    fn ← found (p.declared (pasted class_name function_name))
    make_jni_native_method_autosig m function_name fn

  unfoldable pub fast_native_method : List ℕ → List ℕ → List ℕ → Checked JniNativeMethod
  fast_native_method class_name function_name signature = do
    fn ← found (p.declared (pasted class_name function_name))
    make_jni_fast_native_method m function_name signature fn

  unfoldable pub overloaded_fast_native_method :
      List ℕ → List ℕ → List ℕ → List ℕ → Checked JniNativeMethod
  overloaded_fast_native_method class_name function_name signature identifier = do
    fn ← found (p.declared (pasted class_name identifier))
    make_jni_fast_native_method m function_name signature fn

  unfoldable pub fast_native_method_autosig : List ℕ → List ℕ → Checked JniNativeMethod
  fast_native_method_autosig class_name function_name = do
    fn ← found (p.declared (pasted class_name function_name))
    make_jni_fast_native_method_autosig m function_name fn

  unfoldable pub critical_native_method : List ℕ → List ℕ → List ℕ → Checked JniNativeMethod
  critical_native_method class_name function_name signature = do
    fn ← found (p.declared (pasted class_name function_name))
    make_jni_critical_native_method m function_name signature fn

  unfoldable pub overloaded_critical_native_method :
      List ℕ → List ℕ → List ℕ → List ℕ → Checked JniNativeMethod
  overloaded_critical_native_method class_name function_name signature identifier = do
    fn ← found (p.declared (pasted class_name identifier))
    make_jni_critical_native_method m function_name signature fn

  unfoldable pub critical_native_method_autosig : List ℕ → List ℕ → Checked JniNativeMethod
  critical_native_method_autosig class_name function_name = do
    fn ← found (p.declared (pasted class_name function_name))
    make_jni_critical_native_method_autosig m function_name fn
