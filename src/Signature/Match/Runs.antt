-- ===== src/Signature/Match/Runs.antt =====
-- The descriptors of one or two letters and of the named classes, where the comparison can be run
-- against every type.
use platform_libnativehelper.Base.{
  false≢true, ℕ, ◌≡◌, refl, inl, inr, Bool, true, false, not, ◌&&◌, ◌||◌, List, [], ◌∷◌, map, arith,
  if◌then◌else◌, Bool-cases, codes, and_left, and_right,
}
use platform_libnativehelper.Signature.View.{StringView, view_eq, view_eq_iff}
use platform_libnativehelper.Signature.Traits.{JniType, reify, jni_types, other, trait_eq, jboolean}
use platform_libnativehelper.Signature.Match.{
  compare_jni_descriptor_node_erased, most_similar_type_descriptor, match_exact, compare_traits,
}
use platform_libnativehelper.Signature.Descriptor.Grammar.{IsPrimitive}
use platform_libnativehelper.Signature.Params.Rules.{all}
use platform_libnativehelper.Signature.Match.Table.{Agrees, is_match}
use platform_libnativehelper.Signature.Checked.{ok}

-- The same as a test, for the descriptors at which it can be run.
agrees_at : StringView → JniType → Bool
agrees_at d t = elim (compare_jni_descriptor_node_erased d (reify t)) [
  | ok b ↦ if b then is_match d t else not (is_match d t)
  | _ ↦ false
]

agrees_at_sound :
    (d : StringView) (t : JniType)
    → agrees_at d t ≡ true
    → compare_jni_descriptor_node_erased d (reify t) ≡ ok (is_match d t)
unfolding agrees_at
agrees_at_sound d t h = ground arith

all_sound :
    (p : JniType → Bool) (t : JniType) → all p jni_types ≡ true → p other ≡ true → p t ≡ true
all_sound p jboolean h k = ground arith
all_sound p other h k = k
all_sound p _ h k = ground arith

-- The descriptors of one or two letters, and those of the named classes.
abbrev letters : List StringView
letters = map codes ("Z" ∷ "B" ∷ "C" ∷ "S" ∷ "I" ∷ "J" ∷ "F" ∷ "D" ∷ "V" ∷ [])

abbrev letter_arrays : List StringView
letter_arrays = map codes ("[Z" ∷ "[B" ∷ "[C" ∷ "[S" ∷ "[I" ∷ "[J" ∷ "[F" ∷ "[D" ∷ [])

abbrev pub classes : List StringView
classes = map codes ("Ljava/lang/Class;" ∷ "Ljava/lang/String;" ∷ "Ljava/lang/Throwable;" ∷ [])

unfoldable pub is_one_of : List StringView → StringView → Bool
is_one_of [] d = false
is_one_of (e ∷ es) d = view_eq d e || is_one_of es d

run_agree : List StringView → Bool
unfolding agrees_at
run_agree [] = true
run_agree (d ∷ ds) = (all (agrees_at d) jni_types && agrees_at d other) && run_agree ds

run_agree_sound :
    (ds : List StringView) (d : StringView) → run_agree ds ≡ true → is_one_of ds d ≡ true → Agrees d
unfolding run_agree is_one_of
run_agree_sound [] d h k t = absurd (false≢true k)
run_agree_sound (e ∷ ds) d h k t = elim (Bool-cases (view_eq d e)) [
  | inl same ↦
      let first : (all (agrees_at e) jni_types && agrees_at e other) ≡ true =
        and_left _ (run_agree ds) h in
      rw ((view_eq_iff d e).0 same) (
        agrees_at_sound e t (
          all_sound (agrees_at e) t (and_left _ (agrees_at e other) first)
            (and_right (all (agrees_at e) jni_types) _ first)))
  | inr n ↦ run_agree_sound ds d (and_right _ (run_agree ds) h) (rw n at k) t
]

letters_agree : run_agree letters ≡ true
unfolding run_agree compare_jni_descriptor_node_erased most_similar_type_descriptor match_exact
    compare_traits trait_eq view_eq
letters_agree = refl

letter_arrays_agree : run_agree letter_arrays ≡ true
unfolding run_agree compare_jni_descriptor_node_erased most_similar_type_descriptor match_exact
    compare_traits trait_eq view_eq
letter_arrays_agree = refl

classes_agree : run_agree classes ≡ true
unfolding run_agree compare_jni_descriptor_node_erased most_similar_type_descriptor match_exact
    compare_traits trait_eq view_eq
classes_agree = refl

pub letter-Agrees : (c : ℕ) → IsPrimitive c → Agrees (c ∷ [])
unfolding is_one_of view_eq
letter-Agrees c h = run_agree_sound letters (c ∷ []) letters_agree (ground arith)

pub letter_array-Agrees : (c : ℕ) → IsPrimitive c → Agrees (b'[' ∷ c ∷ [])
unfolding is_one_of view_eq
letter_array-Agrees c h =
    run_agree_sound letter_arrays (b'[' ∷ c ∷ []) letter_arrays_agree (ground arith)

pub void-Agrees : Agrees (codes "V")
unfolding is_one_of view_eq
void-Agrees = run_agree_sound letters (codes "V") letters_agree refl

pub class-Agrees : (d : StringView) → is_one_of classes d ≡ true → Agrees d
class-Agrees d h = run_agree_sound classes d classes_agree h
