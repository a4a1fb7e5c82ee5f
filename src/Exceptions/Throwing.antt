-- ===== src/Exceptions/Throwing.antt =====
-- JNIHelp.c: the functions that throw an exception, register native methods and log an exception.
use platform_libnativehelper.Jni.{
  ◌>>=◌, ◌>>◌, pure, Action, Vm, exception_occurred, Arg, write_log, Env, Ref, int_arg,
  perform_status, ref_arg, perform_local, not_constructed, registration_failed,
  constructor_not_found, fatal_summary, not_thrown, exception_clear, class_not_found,
  register_natives, details, delete_local_ref, new_string, discarding, new_string_utf, find_class,
  minus_one, perform, new_object, throw_ref, get_method_id,
}
use platform_libnativehelper.Base.{
  Outcome, aborted, returned, ℕ, zero, suc, ◌+◌, ◌-◌, ◌/◌, ◌%◌, ◌^◌, Bool, true, false, Option,
  none, some, List, [], ◌∷◌, ◌++◌, ltb, ◌==◌, if◌then◌else◌, codes, take,
}
use platform_libnativehelper.Text.Abstract.{Chars}
use platform_libnativehelper.Text.{Allocator}
use platform_libnativehelper.Exceptions.{get_stack_trace_or_summary, get_exception_summary}

abbrev pub details_or : List ℕ → Chars → List ℕ
details_or text none = text
details_or text (some c) = c

-- The decimal digits of a number below 10 ^ n, as snprintf writes an int.
unfoldable pub digits : ℕ → ℕ → List ℕ → List ℕ
digits zero n rest = rest
digits (suc fuel) n rest =
    let more = digits fuel (n / 10) ((48 + n % 10) ∷ rest) in
    if ltb n 10 then (48 + n) ∷ rest else more

unfoldable pub print_int : ℕ → List ℕ
print_int w = if ltb w (2 ^ 31) then digits 10 w [] else b'-' ∷ digits 10 (2 ^ 32 - w) []

-- What strerror_r answers: its status and the text in a buffer of this size.
pub record Strerror : Type 0 where
  pub strerror_r : ℕ → ℕ → ℕ × List ℕ

-- The text of snprintf in a buffer, which ends with a NUL.
unfoldable pub snprintf : ℕ → List ℕ → List ℕ
snprintf size text = take (size - 1) text

unfoldable pub platform_str_error : Strerror → ℕ → ℕ → List ℕ
platform_str_error c errnum buflen =
    let r = c.strerror_r errnum buflen in
    if r.0 == 0 then r.1 else snprintf buflen (codes "errno " ++ print_int errnum)

module _ (vm : Vm) (a : Allocator) where
  unfoldable pub discard_occurred : Option Ref → List ℕ → Action (Unit {0})
  discard_occurred none class_name = pure tt
  discard_occurred (some exception) class_name = do
    summary ← get_exception_summary vm a (some exception) none
    write_log (discarding (details_or (codes "Unknown") summary.1) class_name)
    delete_local_ref (some exception)

  unfoldable pub discard_pending_exception : List ℕ → Action (Unit {0})
  discard_pending_exception class_name = do
    exception ← exception_occurred
    exception_clear
    discard_occurred exception class_name

  unfoldable pub throw_done : List ℕ → Bool → Action ℕ
  throw_done class_name true = pure 0
  throw_done class_name false = do write_log (not_thrown class_name); pure minus_one

  unfoldable pub throw_instance : List ℕ → Option Ref → Action ℕ
  throw_instance class_name none = do write_log (not_constructed class_name); pure minus_one
  throw_instance class_name (some instance_ref) = do
    done ← throw_ref vm (some instance_ref)
    throw_done class_name done

  unfoldable pub construct_and_throw : Ref → List ℕ → List ℕ → List Arg → Option ℕ → Action ℕ
  construct_and_throw exception_class class_name ctor_sig args none = do
    write_log (constructor_not_found class_name ctor_sig)
    pure minus_one
  construct_and_throw exception_class class_name ctor_sig args (some constructor) = do
    instance_ref ← perform_local vm (new_object (some exception_class) (some constructor) args)
    throw_instance class_name instance_ref

  unfoldable pub throw_of_class : Option Ref → List ℕ → List ℕ → List Arg → Action ℕ
  throw_of_class none class_name ctor_sig args = do
    write_log (class_not_found class_name)
    pure minus_one
  throw_of_class (some exception_class) class_name ctor_sig args = do
    constructor ← perform vm (get_method_id (some exception_class) (codes "<init>") ctor_sig)
    construct_and_throw exception_class class_name ctor_sig args constructor

  unfoldable pub throw_exception : List ℕ → List ℕ → List Arg → Action ℕ
  throw_exception class_name ctor_sig args = do
    discard_pending_exception class_name
    exception_class ← perform_local vm (find_class class_name)
    status ← throw_of_class exception_class class_name ctor_sig args
    delete_local_ref exception_class
    pure status

  unfoldable pub message_created : Option Ref → Action (Option Ref)
  message_created none = do exception_clear; pure none
  message_created (some detail_message) = pure (some detail_message)

  unfoldable pub create_exception_msg : Option (List ℕ) → Action (Option Ref)
  create_exception_msg msg = do
    detail_message ← perform_local vm (new_string_utf msg)
    message_created detail_message

  -- THROW_EXCEPTION_WITH_MESSAGE, with the arguments behind the message.
  unfoldable pub throw_with_message : List ℕ → List ℕ → Option (List ℕ) → List Arg → Action ℕ
  throw_with_message class_name ctor_sig msg more = do
    detail_message ← create_exception_msg msg
    status ← throw_exception class_name ctor_sig (ref_arg detail_message ∷ more)
    delete_local_ref detail_message
    pure status

  unfoldable pub jni_throw_exception : List ℕ → Option (List ℕ) → Action ℕ
  jni_throw_exception class_name message =
      throw_with_message class_name (codes "(Ljava/lang/String;)V") message []

  -- vsnprintf cuts the formatted message to the buffer of 512 bytes.
  unfoldable pub jni_throw_exception_fmt : List ℕ → List ℕ → Action ℕ
  jni_throw_exception_fmt class_name formatted =
      jni_throw_exception class_name (some (snprintf 512 formatted))

  unfoldable pub jni_throw_null_pointer_exception : Option (List ℕ) → Action ℕ
  jni_throw_null_pointer_exception msg =
      jni_throw_exception (codes "java/lang/NullPointerException") msg

  unfoldable pub jni_throw_runtime_exception : Option (List ℕ) → Action ℕ
  jni_throw_runtime_exception msg = jni_throw_exception (codes "java/lang/RuntimeException") msg

  unfoldable pub jni_throw_io_exception : Strerror → ℕ → Action ℕ
  jni_throw_io_exception c errno_value =
      jni_throw_exception (codes "java/io/IOException") (some (platform_str_error c errno_value 80))

  unfoldable pub jni_throw_errno_exception : Option (List ℕ) → ℕ → Action ℕ
  jni_throw_errno_exception function_name errno_value =
      throw_with_message (codes "android/system/ErrnoException") (codes "(Ljava/lang/String;I)V")
        function_name (int_arg errno_value ∷ [])

  unfoldable pub jni_create_string : List ℕ → Action (Option Ref)
  jni_create_string unicode_chars = perform_local vm (new_string unicode_chars)

  unfoldable pub jni_log_exception : ℕ → List ℕ → Option Ref → Action (Unit {0})
  jni_log_exception priority tag thrown = do
    summary ← get_stack_trace_or_summary vm a thrown none
    write_log (details priority tag (details_or (codes "No memory to report exception") summary))

  unfoldable pub log_summary : Bool × Chars → Action (Unit {0})
  log_summary (true, summary) = write_log (fatal_summary (details_or [] summary))
  log_summary (false, summary) = pure tt

  unfoldable pub report_thrown : Option Ref → Action (Unit {0})
  report_thrown none = pure tt
  report_thrown (some thrown) = do
    summary ← get_exception_summary vm a (some thrown) none
    log_summary summary
    delete_local_ref (some thrown)

  unfoldable pub registered : List ℕ → ℕ → Action ℕ
  registered class_name zero = pure zero
  registered class_name (suc status) = do
    thrown ← exception_occurred
    report_thrown thrown
    write_log (registration_failed class_name)
    pure (suc status)

  unfoldable pub register_with : Ref → List ℕ → ℕ → ℕ → Action ℕ
  register_with clazz class_name methods num_methods = do
    status ← perform_status vm (register_natives (some clazz) methods num_methods)
    delete_local_ref (some clazz)
    registered class_name status

  unfoldable pub register_found : List ℕ → ℕ → ℕ → Option Ref × Env → Outcome (ℕ × Env)
  register_found class_name methods num_methods (none, e) = aborted
  register_found class_name methods num_methods (some clazz, e) =
      returned (register_with clazz class_name methods num_methods e)

  -- A class that is not found stops the process.
  unfoldable pub jni_register_native_methods : List ℕ → ℕ → ℕ → Env → Outcome (ℕ × Env)
  jni_register_native_methods class_name methods num_methods e =
      register_found class_name methods num_methods (perform_local vm (find_class class_name) e)
