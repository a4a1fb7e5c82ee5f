-- ===== src/Scoped/UtfChars/Moved.antt =====
-- scoped_utf_chars.h: characters that move between holders are released once.
use platform_libnativehelper.Scoped.LocalRef.Owned.{count, count_held}
use platform_libnativehelper.Scoped.UtfChars.{
  State, destroy, assign, run, zeroed_out, destroy_both, Move, into_left, into_right, onto_itself,
}
use platform_libnativehelper.Base.{
  ℕ, ◌+◌, ◌≡◌, refl, ap, ◌∙◌, Option, none, some, List, [], ◌∷◌, arith,
}

-- How often characters are released or held.
abbrev pub accounted : ℕ → State → ℕ
accounted r s = count r s.released + count_held r s.left.utf_chars + count_held r s.right.utf_chars

destroy_lem :
    (r : ℕ) (o h : Option ℕ) (released : List ℕ)
    → count r (destroy (record { string = o; utf_chars = h }) released)
      ≡ count r released + count_held r h
unfolding destroy
destroy_lem r o none released = omega arith
destroy_lem r o (some x) released = omega arith

accounted-assign : (r : ℕ) (m : Move) (s : State) → accounted r (assign m s) ≡ accounted r s
unfolding assign zeroed_out
accounted-assign r into_left s =
    omega (arith, destroy_lem r s.left.string s.left.utf_chars s.released)
accounted-assign r into_right s =
    omega (arith, destroy_lem r s.right.string s.right.utf_chars s.released)
accounted-assign r onto_itself s = refl

accounted-run : (r : ℕ) (ms : List Move) (s : State) → accounted r (run ms s) ≡ accounted r s
unfolding run
accounted-run r [] s = refl
accounted-run r (m ∷ ms) s = accounted-run r ms (assign m s) ∙ accounted-assign r m s

-- After any assignments between two holders, and of one to itself, and the end of both, all the
-- characters that they held were released, each exactly as often as it was held.
pub destroy_both-run :
    (r : ℕ) (ms : List Move) (s : State)
    → count r (destroy_both (run ms s))
      ≡ count r s.released + count_held r s.left.utf_chars + count_held r s.right.utf_chars
unfolding destroy_both
destroy_both-run r ms s =
    let t = run ms s in
    destroy_lem r t.right.string t.right.utf_chars (destroy t.left t.released)
    ∙ ap (λ n. n + count_held r t.right.utf_chars)
        (destroy_lem r t.left.string t.left.utf_chars t.released)
    ∙ accounted-run r ms s
