-- ===== src/Strings.antt =====
-- include/nativehelper/toStringArray.h: a Java array of strings, made of the strings of a visitor. The
-- holders of scoped_local_ref.h in it delete their references at the end of their blocks.
pub mod Faults
pub mod Filled
use platform_libnativehelper.Base.{
  >>=-returned, bind_returned, some_not_none, if_true, if_false, IsReturned, aborted≢returned,
  returned_injective, crashed, same_string, same_string_sound, Outcome, aborted, returned, ◌>>=◌, ℕ,
  zero, suc, ◌+◌, ◌-◌, ◌*◌, ◌/◌, ◌%◌, ◌^◌, ◌≤◌, ◌<◌, ◌≡◌, refl, sym, ap, ap₂, ◌∙◌, subst, fun_ext,
  ◌≢◌, ◌↔◌, ◌⊎◌, inl, inr, Bool, true, false, not, ◌&&◌, ◌||◌, Option, none, some, List, [], ◌∷◌,
  ◌++◌, map, append_assoc, append-nil, arith, ltb, leb, ◌==◌, if◌then◌else◌, ==_iff, Bool-cases,
  and_left, and_right, and_intro, false≢true, Option-cases, String, codes, length, take, drop,
  get_elem?, length-append, take-append, drop-append, take_all, All, All-append,
}

-- The virtual machine: the answers to FindClass, to NewObjectArray (for a class or NULL, and a jsize)
-- and to NewStringUTF (`none` is NULL, with an exception pending), and to SetObjectArrayElement
-- (false with an exception pending).
pub record Jvm : Type 0 where
  pub string_class : Option ℕ
  pub new_object_array : Option ℕ → ℕ → Option ℕ
  pub new_string_utf : ℕ → List ℕ → Option ℕ
  pub set_element : ℕ → List ℕ → Bool

-- The local references that are live, newest first, the elements of the new array, whether an
-- exception is pending, and the number of calls that were made while one was.
pub record State : Type 0 where
  pub locals : List ℕ
  pub elements : List (Option (List ℕ))
  pub pending : Bool
  pub faults : ℕ

-- A size_t where a jsize is wanted: 32 bits of it, of which the highest is the sign.
abbrev pub to_jsize : ℕ → ℕ
to_jsize n = n % 2 ^ 32

abbrev pub fault_of : Bool → ℕ
fault_of true = 1
fault_of false = 0

unfoldable pub delete_local_ref : ℕ → List ℕ → List ℕ
delete_local_ref x [] = []
delete_local_ref x (y ∷ ys) = if x == y then ys else y ∷ delete_local_ref x ys

-- NewObjectArray fills the array with NULL.
unfoldable pub nulls : ℕ → List (Option (List ℕ))
nulls zero = []
nulls (suc n) = none ∷ nulls n

unfoldable pub set_object_array_element :
    List (Option (List ℕ)) → ℕ → Option (List ℕ) → List (Option (List ℕ))
set_object_array_element [] i x = []
set_object_array_element (y ∷ ys) zero x = x ∷ ys
set_object_array_element (y ∷ ys) (suc i) x = y ∷ set_object_array_element ys i x

-- The store of a new string and the end of its holder: the string is deleted on both ways.
unfoldable pub store : Jvm → ℕ → List ℕ → ℕ → State → Bool × State
store v i text string s =
    if v.set_element (to_jsize i) text
    then (
      true,
      record s {
        locals = delete_local_ref string (string ∷ s.locals);
        elements = set_object_array_element s.elements (to_jsize i) (some text);
      },
    )
    else (false, record s { locals = delete_local_ref string (string ∷ s.locals); pending = true })

-- The first ExceptionCheck: with an exception pending already, a new string is deleted.
unfoldable pub checked : Jvm → ℕ → List ℕ → Option ℕ → State → Bool → Bool × State
checked v i text none s b = (false, record s { pending = true })
checked v i text (some string) s true =
    (false, record s { locals = delete_local_ref string (string ∷ s.locals) })
checked v i text (some string) s false = store v i text string s

-- One round of the loop.
unfoldable pub add_string : Jvm → ℕ → List ℕ → Option ℕ → State → Bool × State
add_string v i text o s =
    checked v i text o (record s { faults = s.faults + fault_of s.pending }) s.pending

unfoldable pub add_strings : Jvm → ℕ → List (List ℕ) → State → Bool × State
add_strings v i [] s = (true, s)
add_strings v i (text ∷ texts) s =
    let r = add_string v i text (v.new_string_utf i text) s in
    let rest = add_strings v (i + 1) texts r.1 in if r.0 then rest else (false, r.1)

-- The result is released to the caller, or deleted by its holder.
unfoldable pub finish : ℕ → Bool × State → Option ℕ × State
finish array (true, s) = (some array, s)
finish array (false, s) = (none, record s { locals = delete_local_ref array s.locals })

unfoldable pub with_array : Jvm → List (List ℕ) → Option ℕ → State → Option ℕ × State
with_array v texts none s = (none, record s { pending = true })
with_array v texts (some array) s = finish array (
    add_strings v 0 texts
      (record s { locals = array ∷ s.locals; elements = nulls (to_jsize (length texts)) }))

-- The class is deleted after NewObjectArray, which is called with an exception pending when the
-- class was not found. DeleteLocalRef ignores NULL.
unfoldable pub with_class : Jvm → List (List ℕ) → Option ℕ → State → Option ℕ × State
with_class v texts none s =
    with_array v texts (v.new_object_array none (to_jsize (length texts)))
      (record s { pending = true; faults = s.faults + fault_of s.pending + 1 })
with_class v texts (some class) s =
    with_array v texts (v.new_object_array (some class) (to_jsize (length texts))) (record s {
      locals = delete_local_ref class (class ∷ s.locals);
      faults = s.faults + fault_of s.pending + fault_of s.pending;
    })

unfoldable pub to_string_array : Jvm → List (List ℕ) → State → Option ℕ × State
to_string_array v texts s = with_class v texts v.string_class s
