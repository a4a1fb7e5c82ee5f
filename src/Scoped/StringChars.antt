-- ===== src/Scoped/StringChars.antt =====
-- scoped_string_chars.h, a holder of the characters of a Java string, and the function of
-- nativehelper_utils.h that throws a NullPointerException.
pub mod Held
use platform_libnativehelper.Jni.{
  ◌>>=◌, ◌>>◌, pure, Action, Ref, Vm, exception_clear, exception_check, delete_local_ref,
  string_length, string_chars, release_string_chars, minus_one, perform_local, throw_new_of,
  find_class,
}
use platform_libnativehelper.Base.{
  >>=-returned, bind_returned, some_not_none, if_true, if_false, IsReturned, aborted≢returned,
  returned_injective, crashed, same_string, same_string_sound, Outcome, aborted, returned, ℕ, zero,
  suc, ◌+◌, ◌-◌, ◌*◌, ◌/◌, ◌%◌, ◌^◌, ◌≤◌, ◌<◌, ◌≡◌, refl, sym, ap, ap₂, ◌∙◌, subst, fun_ext, ◌≢◌,
  ◌↔◌, ◌⊎◌, inl, inr, Bool, true, false, not, ◌&&◌, ◌||◌, Option, none, some, List, [], ◌∷◌, ◌++◌,
  map, append_assoc, append-nil, arith, ltb, leb, ◌==◌, if◌then◌else◌, ==_iff, Bool-cases, and_left,
  and_right, and_intro, false≢true, Option-cases, String, codes, length, take, drop, get_elem?,
  length-append, take-append, drop-append, take_all, All, All-append,
}

-- The string, the address of the characters and their number.
pub record StringChars : Type 0 where
  pub string : Option Ref
  pub chars : Option ℕ
  pub size : ℕ

abbrev pub clear_if : Bool → Action (Unit {0})
clear_if true = exception_clear
clear_if false = pure tt

abbrev pub null_pointer_class : List ℕ
null_pointer_class = codes "java/lang/NullPointerException"

module _ (vm : Vm) where
  abbrev pub thrown_status : Option Ref → Bool → Action ℕ
  thrown_status e_class true = do delete_local_ref e_class; pure 0
  thrown_status e_class false = do delete_local_ref e_class; pure minus_one

  abbrev pub throw_of : Option Ref → Action ℕ
  throw_of none = pure minus_one
  throw_of (some e_class) = do
    done ← throw_new_of vm (some e_class)
    thrown_status (some e_class) done

  unfoldable pub jni_throw_null_pointer : Action ℕ
  jni_throw_null_pointer = do
    b ← exception_check
    clear_if b
    e_class ← perform_local vm (find_class null_pointer_class)
    throw_of e_class

  abbrev pub with_size : Ref → Option ℕ → Action StringChars
  with_size s none = pure (record { string = some s; chars = none; size = 0 })
  with_size s (some chars) = do
    size ← string_length vm (some s)
    pure (record { string = some s; chars = some chars; size = size })

  -- The constructor.
  unfoldable pub construct : Option Ref → Action StringChars
  construct none = do
    jni_throw_null_pointer
    pure (record { string = none; chars = none; size = 0 })
  construct (some s) = do chars ← string_chars vm (some s); with_size s chars

abbrev pub release_held : Option Ref → Option ℕ → Action (Unit {0})
release_held s none = pure tt
release_held s (some chars) = release_string_chars s chars

-- The destructor.
unfoldable pub destroy : StringChars → Action (Unit {0})
destroy h = release_held h.string h.chars
