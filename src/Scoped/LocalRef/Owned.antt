-- ===== src/Scoped/LocalRef/Owned.antt =====
-- scoped_local_ref.h: every reference given to a holder is deleted or handed back exactly once.
use platform_libnativehelper.Base.{
  ℕ, ◌+◌, ◌≡◌, refl, ap, ◌∙◌, inl, inr, Option, none, some, List, [], ◌∷◌, arith, ◌==◌,
  if◌then◌else◌, Bool-cases,
}
use platform_libnativehelper.Scoped.LocalRef.{
  perform, Operation, run, State, reset, destroy, release, reset_to, delete_held, construct,
  same_ref, release_ref,
}

-- How often a reference stands in a list, and in a holder.
abbrev pub count : ℕ → List ℕ → ℕ
count r [] = 0
count r (x ∷ xs) = (if r == x then 1 else 0) + count r xs

abbrev pub count_held : ℕ → Option ℕ → ℕ
count_held r none = 0
count_held r (some x) = if r == x then 1 else 0

-- How often an operation gives a reference to a holder: a reset to the one it holds gives none.
abbrev pub given_by : ℕ → Operation → State → ℕ
given_by r (reset_to ptr) s = if same_ref ptr s.local_ref then 0 else count_held r ptr
given_by r release_ref s = 0

abbrev pub given : ℕ → List Operation → State → ℕ
given r [] s = 0
given r (o ∷ os) s = given_by r o s + given r os (perform o s)

-- The references that a holder has accounted for.
abbrev pub accounted : ℕ → State → ℕ
accounted r s = count r s.deleted + count r s.handed + count_held r s.local_ref

accounted-reset :
    (r : ℕ) (p h : Option ℕ) (d l : List ℕ)
    → accounted r (reset p (record { local_ref = h; deleted = d; handed = l }))
      ≡ accounted r (record { local_ref = h; deleted = d; handed = l })
        + given_by r (reset_to p) (record { local_ref = h; deleted = d; handed = l })
unfolding reset delete_held same_ref
accounted-reset r none none d l = omega arith
accounted-reset r none (some x) d l = omega arith
accounted-reset r (some y) none d l = omega arith
accounted-reset r (some y) (some x) d l = elim (Bool-cases (y == x)) [
  | inl e ↦ rw e (omega arith)
  | inr e ↦ rw e (omega arith)
]

accounted-release :
    (r : ℕ) (h : Option ℕ) (d l : List ℕ)
    → accounted r ((release (record { local_ref = h; deleted = d; handed = l })).1)
      ≡ accounted r (record { local_ref = h; deleted = d; handed = l })
unfolding release
accounted-release r none d l = omega arith
accounted-release r (some x) d l = omega arith

accounted-perform :
    (r : ℕ) (o : Operation) (s : State) → accounted r (perform o s) ≡ accounted r s + given_by r o s
unfolding perform
accounted-perform r (reset_to p) s = accounted-reset r p s.local_ref s.deleted s.handed
accounted-perform r release_ref s = accounted-release r s.local_ref s.deleted s.handed ∙ omega arith

accounted-run :
    (r : ℕ) (os : List Operation) (s : State)
    → accounted r (run os s) ≡ accounted r s + given r os s
unfolding run
accounted-run r [] s = omega arith
accounted-run r (o ∷ os) s =
    omega (arith, accounted-run r os (perform o s), accounted-perform r o s)

destroy_empty :
    (h : Option ℕ) (d l : List ℕ)
    → (destroy (record { local_ref = h; deleted = d; handed = l })).local_ref ≡ none
unfolding destroy reset same_ref delete_held
destroy_empty none d l = refl
destroy_empty (some x) d l = refl

given_none :
    (r : ℕ) (h : Option ℕ) (d l : List ℕ)
    → given_by r (reset_to none) (record { local_ref = h; deleted = d; handed = l }) ≡ 0
unfolding same_ref
given_none r none d l = refl
given_none r (some x) d l = refl

-- Over the life of a holder, from the constructor over any resets and releases to the destructor,
-- every reference is deleted or handed back exactly as often as it was given to the holder; a reset
-- to the reference that is held gives nothing. So none leaks and none is deleted twice.
pub destroy-run :
    (r : ℕ) (first : Option ℕ) (os : List Operation)
    → count r (destroy (run os (construct first))).deleted
        + count r (destroy (run os (construct first))).handed
      ≡ count_held r first + given r os (construct first)
unfolding destroy construct perform
destroy-run r first os =
    let t = run os (construct first) in
    let gone : count_held r (reset none t).local_ref ≡ 0 =
      ap (count_held r) (destroy_empty t.local_ref t.deleted t.handed) in
    omega (
      arith,
      gone,
      given_none r t.local_ref t.deleted t.handed,
      accounted-perform r (reset_to none) t,
      accounted-run r os (construct first),
    )
