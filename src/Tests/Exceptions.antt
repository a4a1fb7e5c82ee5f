-- ===== src/Tests/Exceptions.antt =====
-- JNIHelp.c at concrete inputs.
use platform_libnativehelper.Jni.{
  null_result, Ref, Answer, Env, Vm, result, JniCall, is_live, find_class, int_arg, raised,
  exception_occurred, get_object_class, get_method_id, exception_clear, new_object,
  call_object_method, perform_local, call_void_method, perform, new_string_utf, new_string,
  get_string_utf_chars, throw, throw_ref, throw_new, register_natives, delete_local_ref, Arg,
  get_string_chars, get_string_length, string_chars, string_length, string_utf_chars,
}
use platform_libnativehelper.Base.{
  ℕ, ◌-◌, ◌^◌, ◌<◌, ◌≡◌, refl, sym, ap, subst, ◌≢◌, Bool, true, false, Option, none, some, [], ◌∷◌,
  arith, false≢true, codes, take,
}
use platform_libnativehelper.Exceptions.Throwing.{
  jni_register_native_methods, throw_exception, throw_with_message, platform_str_error, Strerror,
  jni_log_exception, discard_pending_exception, snprintf, print_int, digits, discard_occurred,
  throw_of_class, construct_and_throw, throw_instance, throw_done, jni_throw_exception,
  jni_throw_exception_fmt, jni_throw_null_pointer_exception, jni_throw_runtime_exception,
  jni_throw_io_exception, jni_throw_errno_exception,
}
use platform_libnativehelper.Exceptions.Calls.{IsQuiet, IsCore}
use platform_libnativehelper.Exceptions.Report.{IsThrowing, IsKept, jni_log_exception_lem}
use platform_libnativehelper.Exceptions.Registration.{IsRegistered, register_lem}
use platform_libnativehelper.Text.{Allocator}
use platform_libnativehelper.Exceptions.Trace.{IsPrinting}
use platform_libnativehelper.Exceptions.Summary.{IsSummarized, get_exception_summary_lem}
use platform_libnativehelper.Exceptions.Errno.{IsErrorText, platform_str_error_lem}
use platform_libnativehelper.Exceptions.Faults.{throw_with_message_faults}
use platform_libnativehelper.Exceptions.{
  get_exception_summary, find_method, summarize_class, append_jstring, append_chars, append,
  summarize_named, summarize_message, append_message, message_failed,
}
use platform_libnativehelper.Exceptions.Thrown.{IsThrowDone, IsRaising, throw_exception_lem}
use platform_libnativehelper.Exceptions.Public.{created, message_sig, public_throw_lem}
use platform_libnativehelper.Scoped.StringChars.{construct, jni_throw_null_pointer, destroy}
use platform_libnativehelper.Scoped.StringChars.Held.{
  IsReporting, IsConstructed, IsNullThrown, IsDestroyed, jni_throw_null_pointer_lem,
  construct-destroy,
}
use platform_libnativehelper.Exceptions.Answers.{
  IsConstructible, IsAnswering, throw_exception-IsZero, get_exception_summary-IsTrue,
}
use platform_libnativehelper.Jni.Rules.{IsAt}

-- A virtual machine where every call has a result, but the registration of native methods raises.
abbrev answers : JniCall → Answer
answers (find_class name) = result 1
answers (get_object_class x) = result 2
answers (get_method_id c name signature) = result 3
answers (new_object c m args) = result 4
answers (call_object_method x m) = result 5
answers (call_void_method x m y) = null_result
answers (new_string_utf text) = result 6
answers (new_string text) = result 6
answers (get_string_utf_chars x) = result 0
answers (get_string_chars x) = result 70
answers (get_string_length x) = result 4
answers (throw x) = null_result
answers (throw_new c) = result 8
answers (register_natives c methods n) = raised 9

abbrev vm : Vm
vm = record { answer = λ calls c. answers c; utf_chars = λ x. codes "text" }

abbrev granting : Allocator
granting = record { grants = λ asked size. true; fill = λ asked size. [] }

-- One reference is live, to an exception.
abbrev calm_env : Env
calm_env = record {
  pending = none;
  locals = 7 ∷ [];
  next = 8;
  faults = 0;
  held = [];
  calls = [];
  asked = [];
  log = [];
}

abbrev pending_env : Env
pending_env = record calm_env { pending = some 9 }

abbrev thrown_object : Ref
thrown_object = record { handle = 7; object = 9 }

calm_env-IsAt : IsAt (7 ∷ []) 8 0 calm_env
calm_env-IsAt = record { held = refl; fresh = omega arith; faulted = refl }

pending_env-IsAt : IsAt (7 ∷ []) 8 0 pending_env
pending_env-IsAt = record { held = refl; fresh = omega arith; faulted = refl }

abbrev is_result : Answer → Bool
is_result (result x) = true
is_result y = false

abbrev is_null : Answer → Bool
is_null null_result = true
is_null y = false

result≢raised : (x y : ℕ) → result x ≢ raised y
result≢raised x y h = false≢true (sym (ap is_result h))

result≢null : (x : ℕ) → result x ≢ null_result
result≢null x h = false≢true (sym (ap is_result h))

null≢raised : (y : ℕ) → null_result ≢ raised y
null≢raised y h = false≢true (sym (ap is_null h))

vm-IsCore : IsCore vm
vm-IsCore = record {
  class = λ calls. (1, refl);
  throwable = λ calls. (1, refl);
  string_writer = λ calls. (1, refl);
  print_writer = λ calls. (1, refl);
  method = λ c name signature m calls. (3, refl);
  object_class = λ r calls. (2, refl);
}

vm-IsQuiet : IsQuiet vm
vm-IsQuiet calls x m y = result≢raised 5 y

vm-IsPrinting : IsPrinting vm
vm-IsPrinting calls x m w y = null≢raised y

vm-IsThrowing : IsThrowing vm
vm-IsThrowing calls r = refl

vm-IsRaising : IsRaising vm
vm-IsRaising = record {
  class = λ calls name. result≢null 1;
  method = λ calls c name signature. result≢null 3;
  object = λ calls c m args. result≢null 4;
  throw = λ calls r n h. result≢null n (sym h);
}

live_object : (r : Ref) → some thrown_object ≡ some r → is_live r.handle (7 ∷ []) ≡ true
live_object r h = subst (λ x. is_live (or_seven x) (7 ∷ []) ≡ true) h refl
  where
    or_seven : Option Ref → ℕ
    or_seven none = 7
    or_seven (some x) = x.handle

get_exception_summary_lem_example :
    IsSummarized vm thrown_object
      (7 ∷ [])
      8
      0
      none
      (get_exception_summary vm granting (some thrown_object) none calm_env)
    × ((get_exception_summary vm granting (some thrown_object) none calm_env).1.held ≡ [])
get_exception_summary_lem_example =
    get_exception_summary_lem vm granting vm-IsCore (7 ∷ []) 8 0 none thrown_object calm_env
      calm_env-IsAt refl refl

jni_log_exception_lem_example :
    IsKept
      (7 ∷ [])
      8
      0
      (some 9)
      (jni_log_exception vm granting 5 (codes "tag") (some thrown_object) pending_env)
jni_log_exception_lem_example =
    jni_log_exception_lem vm granting vm-IsCore vm-IsPrinting vm-IsQuiet vm-IsThrowing 5
      (codes "tag") (7 ∷ []) 8 0 (some thrown_object) pending_env pending_env-IsAt live_object

throw_exception_lem_example :
    IsThrowDone vm
      (codes "A")
      (codes "(I)V")
      (int_arg 3 ∷ [])
      (7 ∷ [])
      8
      0
      (throw_exception vm granting (codes "A") (codes "(I)V") (int_arg 3 ∷ []) pending_env)
    × ((throw_exception vm granting (codes "A") (codes "(I)V") (int_arg 3 ∷ []) pending_env).1.held
        ≡ [])
throw_exception_lem_example =
    throw_exception_lem vm granting vm-IsCore vm-IsQuiet vm-IsRaising (codes "A") (codes "(I)V")
      (int_arg 3 ∷ []) (7 ∷ []) 8 0 pending_env pending_env-IsAt refl

throw_with_message_faults_example :
    0 < (throw_with_message vm granting (codes "A") (codes "(I)V") none [] pending_env).1.faults
throw_with_message_faults_example =
    throw_with_message_faults vm granting (codes "A") (codes "(I)V") none [] 9 pending_env refl

register_lem_example :
    IsRegistered
      (7 ∷ [])
      8
      0
      (raised 9)
      (jni_register_native_methods vm granting (codes "A") 100 2 calm_env)
register_lem_example =
    register_lem vm granting (codes "A") 100 2 (7 ∷ []) 8 0 1 calm_env calm_env-IsAt refl refl

-- The C library fails to name the error.
abbrev failing : Strerror
failing = record { strerror_r = λ errnum size. (22, []) }

platform_str_error_lem_example :
    IsErrorText (22, []) 4294967295 80 (platform_str_error failing 4294967295 80)
platform_str_error_lem_example =
    platform_str_error_lem failing 4294967295 80 (omega arith) (omega arith)

error_text : platform_str_error failing (2 ^ 32 - 1) 80 ≡ codes "errno -1"
unfolding platform_str_error snprintf print_int digits
error_text = refl

-- The whole of a throw, with its reference left behind.
throw_run : (throw_exception vm granting (codes "A") (codes "(I)V") [] calm_env).0 ≡ 0
unfolding throw_exception discard_pending_exception exception_occurred exception_clear
    discard_occurred perform_local throw_of_class perform construct_and_throw throw_instance
    throw_ref throw_done delete_local_ref
throw_run = refl

throw_leaves :
    (throw_exception vm granting (codes "A") (codes "(I)V") [] calm_env).1.locals ≡ 9 ∷ (7 ∷ [])
unfolding throw_exception discard_pending_exception exception_occurred exception_clear
    discard_occurred perform_local throw_of_class perform construct_and_throw throw_instance
    throw_ref throw_done delete_local_ref
throw_leaves = refl

abbrev hello_arg : Arg
hello_arg = created vm calm_env (some (codes "hi"))

public_throw_lem_example :
    IsThrowDone vm
      (codes "A")
      message_sig
      (hello_arg ∷ [])
      (7 ∷ [])
      8
      0
      (jni_throw_exception vm granting (codes "A") (some (codes "hi")) calm_env)
    × IsThrowDone vm
        (codes "A")
        message_sig
        (created vm calm_env (some (take 511 (codes "text"))) ∷ [])
        (7 ∷ [])
        8
        0
        (jni_throw_exception_fmt vm granting (codes "A") (codes "text") calm_env)
    × IsThrowDone vm
        (codes "java/lang/NullPointerException")
        message_sig
        (hello_arg ∷ [])
        (7 ∷ [])
        8
        0
        (jni_throw_null_pointer_exception vm granting (some (codes "hi")) calm_env)
    × IsThrowDone vm
        (codes "java/lang/RuntimeException")
        message_sig
        (hello_arg ∷ [])
        (7 ∷ [])
        8
        0
        (jni_throw_runtime_exception vm granting (some (codes "hi")) calm_env)
    × IsThrowDone vm
        (codes "java/io/IOException")
        message_sig
        (created vm calm_env (some (platform_str_error failing 2 80)) ∷ [])
        (7 ∷ [])
        8
        0
        (jni_throw_io_exception vm granting failing 2 calm_env)
    × IsThrowDone vm
        (codes "android/system/ErrnoException")
        (codes "(Ljava/lang/String;I)V")
        (hello_arg ∷ (int_arg 2 ∷ []))
        (7 ∷ [])
        8
        0
        (jni_throw_errno_exception vm granting (some (codes "hi")) 2 calm_env)
public_throw_lem_example =
    public_throw_lem vm granting vm-IsCore vm-IsQuiet vm-IsRaising (7 ∷ []) 8 0 calm_env
      calm_env-IsAt refl (codes "A") (codes "text") (some (codes "hi")) failing 2

vm-IsReporting : IsReporting vm
vm-IsReporting = record {
  class = λ calls name. result≢null 1;
  thrown = λ calls c. result≢null 8;
  characters = λ calls s. result≢null 70;
  size = λ calls s x. result≢raised 4 x;
}

jni_throw_null_pointer_lem_example :
    IsNullThrown vm (7 ∷ []) 8 0 [] (jni_throw_null_pointer vm pending_env)
jni_throw_null_pointer_lem_example =
    jni_throw_null_pointer_lem vm vm-IsReporting (7 ∷ []) 8 0 pending_env pending_env-IsAt

abbrev holding_env : Env
holding_env = record calm_env { held = 70 ∷ [] }

holds_same : holding_env.held ≡ (construct vm (some thrown_object) calm_env).1.held
unfolding construct string_chars string_length
holds_same = refl

construct-destroy_example :
    IsConstructed vm
      (7 ∷ [])
      8
      0
      (some thrown_object)
      calm_env
      (construct vm (some thrown_object) calm_env)
    × IsDestroyed vm vm-IsReporting
        (7 ∷ [])
        8
        0
        []
        holding_env
        ((destroy (construct vm (some thrown_object) calm_env).0 holding_env).1)
construct-destroy_example =
    construct-destroy vm vm-IsReporting (7 ∷ []) 8 0 (some thrown_object) calm_env calm_env-IsAt
      refl refl holding_env (record { held = refl; fresh = omega arith; faulted = refl }) holds_same

vm-IsAnswering : IsAnswering vm
vm-IsAnswering = record { object = λ x m calls. (5, refl); characters = λ x calls. (0, refl) }

vm-IsConstructible : IsConstructible vm (codes "A") (codes "(I)V") (int_arg 3 ∷ [])
vm-IsConstructible = record {
  class = λ calls. (1, refl);
  constructor = λ c calls. (3, refl);
  object = λ c m calls. (4, refl);
}

get_exception_summary-IsTrue_example :
    (get_exception_summary vm granting (some thrown_object) none calm_env).0.0 ≡ true
get_exception_summary-IsTrue_example =
    get_exception_summary-IsTrue vm granting vm-IsCore vm-IsAnswering (λ asked size. refl) (7 ∷ [])
      8 0 thrown_object none calm_env calm_env-IsAt refl refl

throw_exception-IsZero_example :
    (throw_exception vm granting (codes "A") (codes "(I)V") (int_arg 3 ∷ []) pending_env).0 ≡ 0
throw_exception-IsZero_example =
    throw_exception-IsZero vm granting vm-IsCore vm-IsQuiet vm-IsThrowing (codes "A") (codes "(I)V")
      (int_arg 3 ∷ []) vm-IsConstructible (7 ∷ []) 8 0 pending_env pending_env-IsAt refl

-- The text of a whole summary.
thrown_summary :
    (get_exception_summary vm granting (some thrown_object) none calm_env).0
    ≡ (true, some (codes "text: text"))
unfolding get_exception_summary find_method perform_local perform delete_local_ref summarize_class
    append_jstring string_utf_chars append_chars append summarize_named summarize_message
    append_message message_failed
thrown_summary = refl
