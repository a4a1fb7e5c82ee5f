-- ===== src/Tests/Text.antt =====
-- ExpandableString.c at concrete inputs.
use platform_libnativehelper.Text.{State, Allocator}
use platform_libnativehelper.Base.{
  returned, ℕ, zero, suc, ◌≡◌, refl, ap, some, List, [], ◌∷◌, arith, leb, codes, length,
}
use platform_libnativehelper.Text.Contents.{IsFilling}
use platform_libnativehelper.Text.Refinement.{
  IsRefined, perform_texts, TextOperation, appending, abstract_texts, releasing, perform_texts_lem,
  assigning,
}

abbrev zeros : ℕ → List ℕ
zeros zero = []
zeros (suc n) = 0 ∷ zeros n

length-zeros : (n : ℕ) → length (zeros n) ≡ n
length-zeros zero = refl
length-zeros (suc n) = ap suc (length-zeros n)

-- An allocator that gives blocks of at most 100 bytes, all zero.
abbrev small : Allocator
small = record { grants = λ asked size. leb size 100; fill = λ asked size. zeros size }

small-IsFilling : IsFilling small
small-IsFilling asked size = omega (arith, length-zeros size)

abbrev hello : State
hello = record { string = record { data_size = 2; chars = some (104 ∷ 105 ∷ 0 ∷ []) }; asked = [] }

abbrev edits : List TextOperation
edits = appending (codes " you") ∷ (releasing ∷ (assigning (codes "bye") ∷ []))

hello-IsRefined : IsRefined hello (some (codes "hi"), [])
hello-IsRefined = record { sized = refl; held = refl; same = refl }

perform_texts_lem_example :
    (t : State) × (perform_texts small edits hello
      ≡ returned ((abstract_texts small edits (some (codes "hi"), [])).0, t))
    × IsRefined t ((abstract_texts small edits (some (codes "hi"), [])).1)
perform_texts_lem_example =
    perform_texts_lem small small-IsFilling edits hello (some (codes "hi"), []) hello-IsRefined
      (omega arith)
