-- ===== src/Exceptions.antt =====
-- JNIHelp.c: the summary and the stack trace of an exception. The string that they fill is passed and
-- returned as the C string that ExpandableString.c holds.
pub mod Answers
pub mod Calls
pub mod Errno
pub mod Faults
pub mod Growth
pub mod Public
pub mod Message
pub mod Registration
pub mod Report
pub mod Throwing
pub mod Thrown
pub mod Trace
pub mod Sources
pub mod Summary
use platform_libnativehelper.Jni.{
  ◌>>=◌, pure, Action, perform_local, perform, get_method_id, delete_local_ref, ◌>>◌, Ref,
  throw_ref, exception_clear, exception_occurred, new_object, string_utf_chars, call_void_method,
  get_object_class, call_object_method, ref_arg, Vm, find_class, release_string_utf_chars,
}
use platform_libnativehelper.Base.{
  >>=-returned, bind_returned, some_not_none, if_true, if_false, IsReturned, aborted≢returned,
  returned_injective, crashed, same_string, same_string_sound, Outcome, aborted, returned, ℕ, zero,
  suc, ◌+◌, ◌-◌, ◌*◌, ◌/◌, ◌%◌, ◌^◌, ◌≤◌, ◌<◌, ◌≡◌, refl, sym, ap, ap₂, ◌∙◌, subst, fun_ext, ◌≢◌,
  ◌↔◌, ◌⊎◌, inl, inr, Bool, true, false, not, ◌&&◌, ◌||◌, Option, none, some, List, [], ◌∷◌, ◌++◌,
  map, append_assoc, append-nil, arith, ltb, leb, ◌==◌, if◌then◌else◌, ==_iff, Bool-cases, and_left,
  and_right, and_intro, false≢true, Option-cases, String, codes, length, take, drop, get_elem?,
  length-append, take-append, drop-append, take_all, All, All-append,
}
use platform_libnativehelper.Text.{Allocator}
use platform_libnativehelper.Text.Abstract.{Chars, grow, needed, extended}

abbrev pub sig_string : List ℕ
sig_string = codes "()Ljava/lang/String;"

module _ (vm : Vm) (a : Allocator) where
  -- ExpandableStringAppend: whether it succeeds, and the string.
  unfoldable pub append : List ℕ → Chars → Action (Bool × Chars)
  append text dst e =
      let r = extended a dst e.asked text in ((r.0, r.1.0), record e { asked = r.1.1 })

  -- ExpandableStringAssign releases the string first.
  unfoldable pub assign : List ℕ → Action (Bool × Chars)
  assign text = append text none

  unfoldable pub find_method : List ℕ → List ℕ → List ℕ → Action (Option ℕ)
  find_method class_name method_name descriptor = do
    clazz ← perform_local vm (find_class class_name)
    method ← perform vm (get_method_id clazz method_name descriptor)
    delete_local_ref clazz
    pure method

  -- The characters of a Java string.
  abbrev pub utf_of : Option Ref → List ℕ
  utf_of none = []
  utf_of (some text) = vm.utf_chars text.object

  -- The text of a Java string behind the string, once its characters are held, or are NULL.
  unfoldable pub append_chars : Option Ref → Option ℕ → Chars → Action (Bool × Chars)
  append_chars text none dst = pure (false, dst)
  append_chars text (some utf_text) dst = do
    success ← append (utf_of text) dst
    release_string_utf_chars text utf_text
    pure success

  unfoldable pub append_jstring : Option Ref → Chars → Action (Bool × Chars)
  append_jstring text dst = do utf_text ← string_utf_chars vm text; append_chars text utf_text dst

  -- The message behind the class name.
  unfoldable pub append_message : Option Ref → Bool × Chars → Action (Bool × Chars)
  append_message message (true, dst) = append_jstring message dst
  append_message message (false, dst) = pure (false, dst)

  unfoldable pub message_failed : Bool × Chars → Action (Bool × Chars)
  message_failed (true, dst) = pure (true, dst)
  message_failed (false, dst) = do
    r ← append (codes "<error getting message>") dst
    exception_clear
    pure (false, r.1)

  unfoldable pub summarize_message : Option Ref → Chars → Action (Bool × Chars)
  summarize_message none dst = pure (true, dst)
  summarize_message (some message) dst = do
    colon ← append (codes ": ") dst
    r ← append_message (some message) colon
    result ← message_failed r
    delete_local_ref (some message)
    pure result

  -- The rest once the class name was appended, or could not be.
  unfoldable pub summarize_named : Option Ref → Option Ref → Bool × Chars → Action (Bool × Chars)
  summarize_named thrown class_name (false, dst) = do
    r ← assign (codes "<error getting class name UTF-8>")
    exception_clear
    delete_local_ref class_name
    pure (false, r.1)
  summarize_named thrown class_name (true, dst) = do
    delete_local_ref class_name
    get_message ← find_method (codes "java/lang/Throwable") (codes "getMessage") sig_string
    message ← perform_local vm (call_object_method thrown get_message)
    summarize_message message dst

  unfoldable pub summarize_class :
      Option Ref → Option Ref → Option Ref → Chars → Action (Bool × Chars)
  summarize_class thrown exception_class none dst = do
    r ← assign (codes "<error getting class name>")
    exception_clear
    delete_local_ref exception_class
    pure (false, r.1)
  summarize_class thrown exception_class (some class_name) dst = do
    delete_local_ref exception_class
    r ← append_jstring (some class_name) dst
    summarize_named thrown (some class_name) r

  unfoldable pub get_exception_summary : Option Ref → Chars → Action (Bool × Chars)
  get_exception_summary thrown dst = do
    exception_class ← perform_local vm (get_object_class thrown)
    get_name ← find_method (codes "java/lang/Class") (codes "getName") sig_string
    class_name ← perform_local vm (call_object_method exception_class get_name)
    summarize_class thrown exception_class class_name dst

  unfoldable pub new_string_writer : Action (Option Ref)
  new_string_writer = do
    clazz ← perform_local vm (find_class (codes "java/io/StringWriter"))
    constructor ← perform vm (get_method_id clazz (codes "<init>") (codes "()V"))
    instance_ref ← perform_local vm (new_object clazz constructor [])
    delete_local_ref clazz
    pure instance_ref

  unfoldable pub string_writer_to_string : Option Ref → Action (Option Ref)
  string_writer_to_string string_writer = do
    to_string ← find_method (codes "java/io/StringWriter") (codes "toString") sig_string
    perform_local vm (call_object_method string_writer to_string)

  unfoldable pub new_print_writer : Option Ref → Action (Option Ref)
  new_print_writer writer = do
    clazz ← perform_local vm (find_class (codes "java/io/PrintWriter"))
    constructor ← perform vm (get_method_id clazz (codes "<init>") (codes "(Ljava/io/Writer;)V"))
    instance_ref ← perform_local vm (new_object clazz constructor (ref_arg writer ∷ []))
    delete_local_ref clazz
    pure instance_ref

  unfoldable pub append_trace : Option Ref → Chars → Action (Bool × Chars)
  append_trace none dst = pure (false, dst)
  append_trace (some trace) dst = do
    success ← append_jstring (some trace) dst
    delete_local_ref (some trace)
    pure success

  unfoldable pub print_trace : Option Ref → Option Ref → Option Ref → Chars → Action (Bool × Chars)
  print_trace thrown sw none dst = do delete_local_ref sw; pure (false, dst)
  print_trace thrown sw (some pw) dst = do
    print_stack_trace ←
        find_method (codes "java/lang/Throwable") (codes "printStackTrace")
          (codes "(Ljava/io/PrintWriter;)V")
    perform vm (call_void_method thrown print_stack_trace (some pw))
    trace ← string_writer_to_string sw
    delete_local_ref (some pw)
    delete_local_ref sw
    append_trace trace dst

  unfoldable pub trace_written : Option Ref → Option Ref → Chars → Action (Bool × Chars)
  trace_written thrown none dst = pure (false, dst)
  trace_written thrown (some sw) dst = do
    pw ← new_print_writer (some sw)
    print_trace thrown (some sw) pw dst

  unfoldable pub get_stack_trace : Option Ref → Chars → Action (Bool × Chars)
  get_stack_trace thrown dst = do sw ← new_string_writer; trace_written thrown sw dst

  unfoldable pub or_summary : Option Ref → Bool × Chars → Action Chars
  or_summary thrown (true, dst) = pure dst
  or_summary thrown (false, dst) = do
    exception_clear
    r ← get_exception_summary thrown dst
    pure r.1

  -- The exception of before is pending again.
  unfoldable pub throw_again : Option Ref → Action (Unit {0})
  throw_again none = pure tt
  throw_again (some pending_exception) = do
    throw_ref vm (some pending_exception)
    delete_local_ref (some pending_exception)

  unfoldable pub clear_pending : Option Ref → Action (Unit {0})
  clear_pending none = pure tt
  clear_pending (some pending_exception) = exception_clear

  unfoldable pub trace_or_summary : Option Ref → Option Ref → Chars → Action Chars
  trace_or_summary pending_exception thrown dst = do
    r ← get_stack_trace thrown dst
    text ← or_summary thrown r
    throw_again pending_exception
    pure text

  -- The exception given, or else the pending one.
  unfoldable pub chosen : Option Ref → Option Ref → Chars → Action Chars
  chosen pending_exception (some thrown) dst = trace_or_summary pending_exception (some thrown) dst
  chosen none none dst = do r ← assign (codes "<no pending exception>"); pure r.1
  chosen (some pending_exception) none dst =
      trace_or_summary (some pending_exception) (some pending_exception) dst

  unfoldable pub get_stack_trace_or_summary : Option Ref → Chars → Action Chars
  get_stack_trace_or_summary thrown dst = do
    pending_exception ← exception_occurred
    clear_pending pending_exception
    chosen pending_exception thrown dst
