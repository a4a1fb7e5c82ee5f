-- ===== src/Text/Abstract.antt =====
-- The string of ExpandableString.c as its clients see it: a C string, or NULL where nothing was
-- allocated yet, and whether the allocator grants the size that an append needs.
use platform_libnativehelper.Base.{
  ℕ, ◌+◌, Bool, true, false, Option, none, some, List, [], ◌++◌, length, ◌∷◌,
}
use platform_libnativehelper.Text.{Allocator}

-- NULL is `none`.
abbrev pub Chars : Type 0
Chars = Option (List ℕ)

abbrev pub chars : Chars → List ℕ
chars none = []
chars (some c) = c

-- The size that an append asks for: both texts and the NUL.
abbrev pub needed : Chars → List ℕ → ℕ
needed d text = length (chars d) + length text + 1

-- The appended string, if the size is granted.
abbrev pub grow : Bool → Chars → List ℕ → Bool × Chars
grow true d text = (true, some (chars d ++ text))
grow false d text = (false, d)

-- A string and the sizes that were asked of the allocator.
abbrev pub AbstractText : Type 0
AbstractText = Chars × List ℕ

-- An append asks the allocator for the size.
abbrev pub extended : Allocator → Chars → List ℕ → List ℕ → Bool × AbstractText
extended a d asked text =
    let r = grow (a.grants asked (needed d text)) d text in (r.0, (r.1, needed d text ∷ asked))
