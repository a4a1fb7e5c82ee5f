-- ===== src/Scoped/LocalRef.antt =====
-- scoped_local_ref.h: ScopedLocalRef, the holder of a local reference. A reference is a number, and
-- nullptr is `none`.
pub mod Owned
use platform_libnativehelper.Base.{
  >>=-returned, bind_returned, some_not_none, if_true, if_false, IsReturned, aborted≢returned,
  returned_injective, crashed, same_string, same_string_sound, Outcome, aborted, returned, ◌>>=◌, ℕ,
  zero, suc, ◌+◌, ◌-◌, ◌*◌, ◌/◌, ◌%◌, ◌^◌, ◌≤◌, ◌<◌, ◌≡◌, refl, sym, ap, ap₂, ◌∙◌, subst, fun_ext,
  ◌≢◌, ◌↔◌, ◌⊎◌, inl, inr, Bool, true, false, not, ◌&&◌, ◌||◌, Option, none, some, List, [], ◌∷◌,
  ◌++◌, map, append_assoc, append-nil, arith, ltb, leb, ◌==◌, if◌then◌else◌, ==_iff, Bool-cases,
  and_left, and_right, and_intro, false≢true, Option-cases, String, codes, length, take, drop,
  get_elem?, length-append, take-append, drop-append, take_all, All, All-append,
}

-- The holder, and what happened to references: the calls of DeleteLocalRef, and the references
-- handed back by release, newest first.
pub record State : Type 0 where
  pub local_ref : Option ℕ
  pub deleted : List ℕ
  pub handed : List ℕ

-- The operations on a holder. A move from another holder is a reset to what that one releases, and
-- a move to another holder a release.
pub data Operation : Type 0 where
  reset_to : Option ℕ → Operation
  release_ref : Operation

unfoldable pub same_ref : Option ℕ → Option ℕ → Bool
same_ref none none = true
same_ref (some a) (some b) = a == b
same_ref _ _ = false

unfoldable pub delete_held : State → State
delete_held s = elim s.local_ref [ none ↦ s | some r ↦ record s { deleted = r ∷ s.deleted } ]

unfoldable pub reset : Option ℕ → State → State
reset ptr s = if same_ref ptr s.local_ref then s else record (delete_held s) { local_ref = ptr }

unfoldable pub release : State → Option ℕ × State
release s = (
  s.local_ref,
  elim s.local_ref [
    | none ↦ record s { local_ref = none }
    | some r ↦ record s { local_ref = none; handed = r ∷ s.handed }
  ],
)

unfoldable pub construct : Option ℕ → State
construct local_ref = record { local_ref = local_ref; deleted = []; handed = [] }

-- The destructor resets to nullptr.
unfoldable pub destroy : State → State
destroy s = reset none s

unfoldable pub perform : Operation → State → State
perform (reset_to ptr) s = reset ptr s
perform release_ref s = (release s).1

unfoldable pub run : List Operation → State → State
run [] s = s
run (o ∷ os) s = run os (perform o s)
