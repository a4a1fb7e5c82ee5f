-- ===== src/Scoped/UtfChars.antt =====
-- scoped_utf_chars.h: ScopedUtfChars, the holder of the UTF-8 characters of a Java string, which may
-- move from one holder to another. nullptr is `none`.
pub mod Moved
use platform_libnativehelper.Base.{
  >>=-returned, bind_returned, some_not_none, if_true, if_false, IsReturned, aborted≢returned,
  returned_injective, crashed, same_string, same_string_sound, Outcome, aborted, returned, ◌>>=◌, ℕ,
  zero, suc, ◌+◌, ◌-◌, ◌*◌, ◌/◌, ◌%◌, ◌^◌, ◌≤◌, ◌<◌, ◌≡◌, refl, sym, ap, ap₂, ◌∙◌, subst, fun_ext,
  ◌≢◌, ◌↔◌, ◌⊎◌, inl, inr, Bool, true, false, not, ◌&&◌, ◌||◌, Option, none, some, List, [], ◌∷◌,
  ◌++◌, map, append_assoc, append-nil, arith, ltb, leb, ◌==◌, if◌then◌else◌, ==_iff, Bool-cases,
  and_left, and_right, and_intro, false≢true, Option-cases, String, codes, length, take, drop,
  get_elem?, length-append, take-append, drop-append, take_all, All, All-append,
}

pub record UtfChars : Type 0 where
  pub string : Option ℕ
  pub utf_chars : Option ℕ

-- The characters that GetStringUTFChars gives for a string, or NULL.
pub record Strings : Type 0 where
  pub get_utf_chars : ℕ → Option ℕ

-- Whether a NullPointerException is thrown.
unfoldable pub construct : Strings → Option ℕ → UtfChars × Bool
construct v none = (record { string = none; utf_chars = none }, true)
construct v (some s) = (record { string = some s; utf_chars = v.get_utf_chars s }, false)

-- A holder that was moved from.
unfoldable pub zeroed_out : UtfChars
zeroed_out = record { string = none; utf_chars = none }

-- The destructor, with the calls of ReleaseStringUTFChars, newest first.
unfoldable pub destroy : UtfChars → List ℕ → List ℕ
destroy u released = elim u.utf_chars [ none ↦ released | some chars ↦ chars ∷ released ]

-- Two holders, and the characters released.
pub record State : Type 0 where
  pub left : UtfChars
  pub right : UtfChars
  pub released : List ℕ

-- Moves between the holders: an assignment of one to the other or to itself.
pub data Move : Type 0 where
  into_left : Move
  into_right : Move
  onto_itself : Move

unfoldable pub assign : Move → State → State
assign into_left s = record {
  left = s.right;
  right = zeroed_out;
  released = destroy s.left s.released;
}
assign into_right s = record {
  left = zeroed_out;
  right = s.left;
  released = destroy s.right s.released;
}
assign onto_itself s = s

unfoldable pub run : List Move → State → State
run [] s = s
run (m ∷ ms) s = run ms (assign m s)

unfoldable pub destroy_both : State → List ℕ
destroy_both s = destroy s.right (destroy s.left s.released)
