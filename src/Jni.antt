-- ===== src/Jni.antt =====
-- A JNI environment, as the code that calls it sees it: the pending exception, the local references,
-- and whether every call was one that the JNI specification allows.
pub mod Binds
pub mod Found
pub mod Growth
pub mod Rules
use platform_libnativehelper.Base.{
  >>=-returned, bind_returned, some_not_none, if_true, if_false, IsReturned, aborted≢returned,
  returned_injective, crashed, same_string, same_string_sound, Outcome, aborted, returned, ℕ, zero,
  suc, ◌+◌, ◌-◌, ◌*◌, ◌/◌, ◌%◌, ◌^◌, ◌≤◌, ◌<◌, ◌≡◌, refl, sym, ap, ap₂, ◌∙◌, subst, fun_ext, ◌≢◌,
  ◌↔◌, ◌⊎◌, inl, inr, Bool, true, false, not, ◌&&◌, ◌||◌, Option, none, some, List, [], ◌∷◌, ◌++◌,
  map, append_assoc, append-nil, arith, ltb, leb, ◌==◌, if◌then◌else◌, ==_iff, Bool-cases, and_left,
  and_right, and_intro, false≢true, Option-cases, String, codes, length, take, drop, get_elem?,
  length-append, take-append, drop-append, take_all, All, All-append,
}

-- A reference, with the object that it refers to.
pub record Ref : Type 0 where
  pub handle : ℕ
  pub object : ℕ

pub data Arg : Type 0 where
  ref_arg : Option Ref → Arg
  int_arg : ℕ → Arg

-- The calls that may not be made while an exception is pending. NULL is `none`.
pub data JniCall : Type 0 where
  find_class : List ℕ → JniCall
  get_object_class : Option Ref → JniCall
  get_method_id : Option Ref → List ℕ → List ℕ → JniCall
  new_object : Option Ref → Option ℕ → List Arg → JniCall
  call_object_method : Option Ref → Option ℕ → JniCall
  call_void_method : Option Ref → Option ℕ → Option Ref → JniCall
  new_string_utf : Option (List ℕ) → JniCall
  new_string : List ℕ → JniCall
  get_string_utf_chars : Option Ref → JniCall
  get_string_chars : Option Ref → JniCall
  get_string_length : Option Ref → JniCall
  throw : Option Ref → JniCall
  throw_new : Option Ref → JniCall
  register_natives : Option Ref → ℕ → ℕ → JniCall

-- The virtual machine's answer: NULL or 0, a result, or NULL with an exception pending.
pub data Answer : Type 0 where
  null_result : Answer
  result : ℕ → Answer
  raised : ℕ → Answer

-- The virtual machine answers by the calls made before, newest first. An object that is a string
-- has characters.
pub record Vm : Type 0 where
  pub answer : List JniCall → JniCall → Answer
  pub utf_chars : ℕ → List ℕ

-- What the code writes to the log.
pub data LogEntry : Type 0 where
  discarding : List ℕ → List ℕ → LogEntry
  class_not_found : List ℕ → LogEntry
  constructor_not_found : List ℕ → List ℕ → LogEntry
  not_constructed : List ℕ → LogEntry
  not_thrown : List ℕ → LogEntry
  fatal_summary : List ℕ → LogEntry
  registration_failed : List ℕ → LogEntry
  details : ℕ → List ℕ → List ℕ → LogEntry

-- The pending exception, the handles of the live local references, the next handle, the number of
-- calls that the specification does not allow, the addresses of the characters that are held, and the
-- calls, the sizes asked of the native allocator and the log so far, newest first.
pub record Env : Type 0 where
  pub pending : Option ℕ
  pub locals : List ℕ
  pub next : ℕ
  pub faults : ℕ
  pub held : List ℕ
  pub calls : List JniCall
  pub asked : List ℕ
  pub log : List LogEntry

-- A step of the code: a result and the environment after it.
abbrev pub Action : Type 0 → Type 0
Action A = Env → A × Env

abbrev pub pure : {A : Type 0} → A → Action A
pure a e = (a, e)

infixl 5 ◌>>=◌ ◌>>◌
abbrev pub ◌>>=◌ : {A B : Type 0} → Action A → (A → Action B) → Action B
◌>>=◌ m f e = f (m e).0 (m e).1

abbrev pub ◌>>◌ : {A B : Type 0} → Action A → Action B → Action B
◌>>◌ m n = m >>= λ _. n

abbrev pub is_live : ℕ → List ℕ → Bool
is_live h [] = false
is_live h (x ∷ xs) = (h == x) || is_live h xs

abbrev pub remove : ℕ → List ℕ → List ℕ
remove h [] = []
remove h (x ∷ xs) = if h == x then xs else x ∷ remove h xs

-- NULL may be an argument; a reference that was deleted may not.
abbrev pub ref_live : Option Ref → List ℕ → Bool
ref_live none locals = true
ref_live (some r) locals = is_live r.handle locals

abbrev pub args_live : List Arg → List ℕ → Bool
args_live [] locals = true
args_live (int_arg n ∷ args) locals = args_live args locals
args_live (ref_arg r ∷ args) locals = ref_live r locals && args_live args locals

-- An object or a class that is used may not be NULL.
abbrev pub target_live : Option Ref → List ℕ → Bool
target_live none locals = false
target_live (some r) locals = is_live r.handle locals

abbrev pub has_id : Option ℕ → Bool
has_id none = false
has_id (some m) = true

-- The references of a call are live, and it has no NULL where the specification wants a value.
abbrev pub call_live : JniCall → List ℕ → Bool
call_live (find_class name) l = true
call_live (get_object_class x) l = target_live x l
call_live (get_method_id c name signature) l = target_live c l
call_live (new_object c m args) l = has_id m && (target_live c l && args_live args l)
call_live (call_object_method x m) l = has_id m && target_live x l
call_live (call_void_method x m y) l = has_id m && (target_live x l && ref_live y l)
call_live (new_string_utf text) l = true
call_live (new_string text) l = true
call_live (get_string_utf_chars x) l = target_live x l
call_live (get_string_chars x) l = target_live x l
call_live (get_string_length x) l = target_live x l
call_live (throw x) l = target_live x l
call_live (throw_new c) l = target_live c l
call_live (register_natives c methods n) l = target_live c l

-- A call is allowed when no exception is pending and its references are live.
abbrev pub fault : Option ℕ → Bool → ℕ
fault none true = 0
fault none false = 1
fault (some x) live = 1

-- The environment after a call that got an answer.
abbrev pub answered : JniCall → Answer → Env → Env
answered c (raised x) e = record e {
  pending = some x;
  calls = c ∷ e.calls;
  faults = e.faults + fault e.pending (call_live c e.locals);
}
answered c _ e = record e {
  calls = c ∷ e.calls;
  faults = e.faults + fault e.pending (call_live c e.locals);
}

abbrev pub value_of : Answer → Option ℕ
value_of null_result = none
value_of (result x) = some x
value_of (raised x) = none

-- A call for an identifier or a status.
unfoldable pub perform : Vm → JniCall → Action (Option ℕ)
perform vm c e = (value_of (vm.answer e.calls c), answered c (vm.answer e.calls c) e)

-- The status of a call: 0, or not 0. JNI_ERR is -1, as a 32-bit word.
abbrev pub minus_one : ℕ
minus_one = 2 ^ 32 - 1

abbrev pub status_of : Answer → ℕ
status_of null_result = 0
status_of (result n) = suc n
status_of (raised x) = minus_one

unfoldable pub perform_status : Vm → JniCall → Action ℕ
perform_status vm c e = (status_of (vm.answer e.calls c), answered c (vm.answer e.calls c) e)

-- The new local reference of a call for an object.
abbrev pub referred : JniCall → Answer → Env → Option Ref × Env
referred c (result x) e = (
  some (record { handle = e.next; object = x }),
  record (answered c (result x) e) { locals = e.next ∷ e.locals; next = suc e.next },
)
referred c null_result e = (none, answered c null_result e)
referred c (raised x) e = (none, answered c (raised x) e)

unfoldable pub perform_local : Vm → JniCall → Action (Option Ref)
perform_local vm c e = referred c (vm.answer e.calls c) e

-- The characters at an address are held, or NULL.
abbrev pub with_held : Option ℕ × Env → Option ℕ × Env
with_held (none, e) = (none, e)
with_held (some x, e) = (some x, record e { held = x ∷ e.held })

-- GetStringUTFChars.
unfoldable pub string_utf_chars : Vm → Option Ref → Action (Option ℕ)
string_utf_chars vm s e = with_held (
  value_of (vm.answer e.calls (get_string_utf_chars s)),
  answered (get_string_utf_chars s) (vm.answer e.calls (get_string_utf_chars s)) e,
)

-- ReleaseStringUTFChars may be called at any time; the characters must be held and the string live.
unfoldable pub release_string_utf_chars : Option Ref → ℕ → Action (Unit {0})
release_string_utf_chars s x e = (
  tt,
  record e {
    held = remove x e.held;
    faults = e.faults + fault none (is_live x e.held && target_live s e.locals);
  },
)

-- Throw: the exception is pending when it answers JNI_OK.
abbrev pub thrown : Option Ref → Answer → Env → Bool × Env
thrown (some r) null_result e =
    (true, record (answered (throw (some r)) null_result e) { pending = some r.object })
thrown none null_result e = (false, answered (throw none) null_result e)
thrown x (result n) e = (false, answered (throw x) (result n) e)
thrown x (raised n) e = (false, answered (throw x) (raised n) e)

unfoldable pub throw_ref : Vm → Option Ref → Action Bool
throw_ref vm x e = thrown x (vm.answer e.calls (throw x)) e

-- The calls that are allowed at any time.
unfoldable pub exception_clear : Action (Unit {0})
exception_clear e = (tt, record e { pending = none })

-- A new reference to the exception.
abbrev pub occurred : Option ℕ → Action (Option Ref)
occurred none e = (none, e)
occurred (some x) e = (
  some (record { handle = e.next; object = x }),
  record e { locals = e.next ∷ e.locals; next = suc e.next },
)

unfoldable pub exception_occurred : Action (Option Ref)
exception_occurred e = occurred e.pending e

-- DeleteLocalRef: NULL is ignored, and a reference that is not live is a fault.
unfoldable pub delete_local_ref : Option Ref → Action (Unit {0})
delete_local_ref none e = (tt, e)
delete_local_ref (some r) e = (
  tt,
  record e {
    locals = remove r.handle e.locals;
    faults = e.faults + fault none (is_live r.handle e.locals);
  },
)

unfoldable pub write_log : LogEntry → Action (Unit {0})
write_log entry e = (tt, record e { log = entry ∷ e.log })

-- ThrowNew: the new exception is pending when it answers JNI_OK.
abbrev pub thrown_new : Option Ref → Answer → Env → Bool × Env
thrown_new c (result x) e =
    (true, record (answered (throw_new c) (result x) e) { pending = some x })
thrown_new c null_result e = (false, answered (throw_new c) null_result e)
thrown_new c (raised x) e = (false, answered (throw_new c) (raised x) e)

unfoldable pub throw_new_of : Vm → Option Ref → Action Bool
throw_new_of vm c e = thrown_new c (vm.answer e.calls (throw_new c)) e

-- ExceptionCheck.
abbrev pub is_pending : Option ℕ → Bool
is_pending none = false
is_pending (some x) = true

unfoldable pub exception_check : Action Bool
exception_check e = (is_pending e.pending, e)

-- GetStringChars.
unfoldable pub string_chars : Vm → Option Ref → Action (Option ℕ)
string_chars vm s e = with_held (
  value_of (vm.answer e.calls (get_string_chars s)),
  answered (get_string_chars s) (vm.answer e.calls (get_string_chars s)) e,
)

-- GetStringLength.
abbrev pub length_of : Answer → ℕ
length_of null_result = 0
length_of (result n) = n
length_of (raised x) = 0

unfoldable pub string_length : Vm → Option Ref → Action ℕ
string_length vm s e = (
  length_of (vm.answer e.calls (get_string_length s)),
  answered (get_string_length s) (vm.answer e.calls (get_string_length s)) e,
)

-- ReleaseStringChars may be called at any time; the characters must be held and the string live.
unfoldable pub release_string_chars : Option Ref → ℕ → Action (Unit {0})
release_string_chars s x e = (
  tt,
  record e {
    held = remove x e.held;
    faults = e.faults + fault none (is_live x e.held && target_live s e.locals);
  },
)
