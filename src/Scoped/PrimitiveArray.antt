-- ===== src/Scoped/PrimitiveArray.antt =====
-- scoped_primitive_array.h: the holders of the elements of a Java array, one that reads (RO) and one
-- that reads and writes (RW), for one primitive type. The macros make the same code for each.
pub mod Balanced
use platform_libnativehelper.Base.{
  >>=-returned, bind_returned, some_not_none, if_true, if_false, IsReturned, aborted≢returned,
  returned_injective, crashed, same_string, same_string_sound, Outcome, aborted, returned, ◌>>=◌, ℕ,
  zero, suc, ◌+◌, ◌-◌, ◌*◌, ◌/◌, ◌%◌, ◌^◌, ◌≤◌, ◌<◌, ◌≡◌, refl, sym, ap, ap₂, ◌∙◌, subst, fun_ext,
  ◌≢◌, ◌↔◌, ◌⊎◌, inl, inr, Bool, true, false, not, ◌&&◌, ◌||◌, Option, none, some, List, [], ◌∷◌,
  ◌++◌, map, append_assoc, append-nil, arith, ltb, leb, ◌==◌, if◌then◌else◌, ==_iff, Bool-cases,
  and_left, and_right, and_intro, false≢true, Option-cases, String, codes, length, take, drop,
  get_elem?, length-append, take-append, drop-append, take_all, All, All-append,
}

abbrev pub buffer_size : ℕ
buffer_size = 1024

-- The modes of ReleaseArrayElements.
pub data ReleaseMode : Type 0 where
  copy_back : ReleaseMode
  jni_abort : ReleaseMode

-- The arrays of the Java heap: their elements, and the address of the elements that
-- GetArrayElements gives after the calls of it before, or NULL.
pub record Arrays : Type 0 where
  pub elements : ℕ → List ℕ
  pub address : List ℕ → ℕ → Option ℕ

-- What the holders did: the addresses acquired, those given back with the mode, newest first, and
-- the exceptions thrown for a null array.
pub record Log : Type 0 where
  pub acquired : List ℕ
  pub given_back : List (ℕ × ℕ × ReleaseMode)
  pub null_pointer_exceptions : ℕ

-- Where the elements are read: nowhere, in the holder's own buffer, or at an address.
pub data RawArray : Type 0 where
  null_raw : RawArray
  own_buffer : RawArray
  at_address : ℕ → RawArray

pub record ArrayRo : Type 0 where
  pub java_array : Option ℕ
  pub raw_array : RawArray
  pub size : ℕ
  pub buffer : List ℕ

abbrev pub raw_of : Option ℕ → RawArray
raw_of none = null_raw
raw_of (some a) = at_address a

abbrev pub with_acquired : Option ℕ → Log → Log
with_acquired none g = g
with_acquired (some a) g = record g { acquired = a ∷ g.acquired }

unfoldable pub empty_ro : ArrayRo
empty_ro = record { java_array = none; raw_array = null_raw; size = 0; buffer = [] }

unfoldable pub reset_ro : Arrays → ℕ → Log → ArrayRo × Log
reset_ro v array g =
    if leb (length (v.elements array)) buffer_size
    then (
      record {
        java_array = some array;
        raw_array = own_buffer;
        size = length (v.elements array);
        buffer = take (length (v.elements array)) (v.elements array);
      },
      g,
    )
    else (
      record {
        java_array = some array;
        raw_array = raw_of (v.address g.acquired array);
        size = length (v.elements array);
        buffer = [];
      },
      with_acquired (v.address g.acquired array) g,
    )

unfoldable pub construct_ro : Arrays → Option ℕ → Log → ArrayRo × Log
construct_ro v none g =
    (empty_ro, record g { null_pointer_exceptions = g.null_pointer_exceptions + 1 })
construct_ro v (some array) g = reset_ro v array g

abbrev pub release_raw : RawArray → Option ℕ → Log → Log
release_raw (at_address a) (some array) g = record g {
  given_back = (array, a, jni_abort) ∷ g.given_back;
}
release_raw _ _ g = g

unfoldable pub destroy_ro : ArrayRo × Log → Log
destroy_ro (s, g) = release_raw s.raw_array s.java_array g

-- What get() points to: nothing, or the elements.
abbrev pub content : Arrays → List ℕ → RawArray → Option ℕ → Option (List ℕ)
content v buffer own_buffer array = some buffer
content v buffer (at_address a) (some array) = some (v.elements array)
content v buffer _ _ = none

unfoldable pub get_ro : Arrays → ArrayRo → Option (List ℕ)
get_ro v s = content v s.buffer s.raw_array s.java_array

pub record ArrayRw : Type 0 where
  pub rw_java_array : Option ℕ
  pub rw_raw_array : Option ℕ

unfoldable pub reset_rw : Arrays → ℕ → Log → ArrayRw × Log
reset_rw v array g = (
  record { rw_java_array = some array; rw_raw_array = v.address g.acquired array },
  with_acquired (v.address g.acquired array) g,
)

unfoldable pub construct_rw : Arrays → Option ℕ → Log → ArrayRw × Log
construct_rw v none g = (
  record { rw_java_array = none; rw_raw_array = none },
  record g { null_pointer_exceptions = g.null_pointer_exceptions + 1 },
)
construct_rw v (some array) g = reset_rw v array g

abbrev pub release_rw : Option ℕ → Option ℕ → Log → Log
release_rw (some a) (some array) g = record g { given_back = (array, a, copy_back) ∷ g.given_back }
release_rw _ _ g = g

unfoldable pub destroy_rw : ArrayRw × Log → Log
destroy_rw (s, g) = release_rw s.rw_raw_array s.rw_java_array g
