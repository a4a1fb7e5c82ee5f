-- ===== src/Text/Contents.antt =====
-- ExpandableString.c: the string held is the concatenation of what was appended, with a NUL, and a
-- failed allocation leaves it as it was.
use platform_libnativehelper.Base.{
  if_true, if_false, returned, ℕ, zero, suc, ◌+◌, ◌%◌, ◌≤◌, ◌<◌, ◌≡◌, refl, sym, ap, ◌∙◌, ◌⊎◌, inl,
  inr, Bool, true, false, none, some, List, [], ◌∷◌, ◌++◌, append_assoc, append-nil, arith, leb,
  if◌then◌else◌, Bool-cases, length, take, drop, length-append, take-append,
}
use platform_libnativehelper.Text.{
  append, memcpy, required_size, Allocator, bytes, ExpandableString, realloc, size_max, assign,
  grown, stored, release, State,
}

length-take : (n : ℕ) (xs : List ℕ) → n ≤ length xs → length (take n xs) ≡ n
length-take zero xs h = refl
length-take (suc n) [] h = absurd (omega (arith, h))
length-take (suc n) (x ∷ xs) h = ap suc (length-take n xs (omega (arith, h)))

take-take : (m n : ℕ) (xs : List ℕ) → m ≤ n → take m (take n xs) ≡ take m xs
take-take zero n xs h = refl
take-take (suc m) zero xs h = absurd (omega (arith, h))
take-take (suc m) (suc n) [] h = refl
take-take (suc m) (suc n) (x ∷ xs) h = ap (◌∷◌ x) (take-take m n xs (omega (arith, h)))

drop_all : (n : ℕ) (xs : List ℕ) → length xs ≡ n → drop n xs ≡ []
drop_all zero [] h = refl
drop_all zero (x ∷ xs) h = absurd (omega (arith, h))
drop_all (suc n) [] h = refl
drop_all (suc n) (x ∷ xs) h = drop_all n xs (omega (arith, h))

-- The string holds these characters: nothing is allocated yet, or the block is they and a NUL.
pub record IsText (e : ExpandableString) (c : List ℕ) : Type 0 where
  pub sized : e.data_size ≡ length c
  pub held : ((e.chars ≡ none) × (c ≡ [])) ⊎ (e.chars ≡ some (c ++ (0 ∷ [])))

-- realloc gives a block of the size asked for.
abbrev pub IsFilling : Allocator → Type 0
IsFilling a = (asked : List ℕ) (size : ℕ) → size ≤ length (a.fill asked size)

-- realloc keeps the characters, and the block has the size.
pub realloc_keeps :
    (e : ExpandableString) (c more : List ℕ) (n : ℕ)
    → IsText e c
    → length c ≤ n
    → take (length c) (take n (bytes e.chars ++ more)) ≡ c
unfolding bytes
realloc_keeps e c more n h l = take-take (length c) n (bytes e.chars ++ more) l ∙ elim h.held [
  | inl k ↦ ap (λ z. take (length z) (bytes e.chars ++ more)) k.1 ∙ sym k.1
  | inr k ↦
      ap (λ z. take (length c) (bytes z ++ more)) k
      ∙ ap (take (length c)) (append_assoc c (0 ∷ []) more)
      ∙ take-append c ((0 ∷ []) ++ more)
]

pub realloc_length : (d more : List ℕ) (n : ℕ) → n ≤ length more → length (take n (d ++ more)) ≡ n
realloc_length d more n h = length-take n (d ++ more) (omega (arith, length-append d more, h))

pub required_size_lem :
    (e : ExpandableString) (c text : List ℕ)
    → IsText e c
    → length c + length text + 1 < size_max
    → required_size e text ≡ length c + length text + 1
unfolding required_size
required_size_lem e c text h f = let q = h.sized in omega (arith, q, f)

pub memcpy_lem :
    (block c source : List ℕ)
    → length block ≡ length c + length source
    → take (length c) block ≡ c
    → memcpy block (length c) source ≡ some (c ++ source)
unfolding memcpy
memcpy_lem block c source l t =
    if_true (leb (length c + length source) (length block)) _ _ (ground (arith, l))
    ∙ ap some (
        ap (λ z. take (length c) block ++ source ++ z) (drop_all (length c + length source) block l)
        ∙ append-nil (take (length c) block ++ source)
        ∙ ap (λ z. z ++ source) t)

grown_lem :
    (s : State) (c text block : List ℕ) (n : ℕ)
    → IsText s.string c
    → length c + length text + 1 < size_max
    → length block ≡ length c + length text + 1
    → take (length c) block ≡ c
    → (t : State) × (grown s text n (some block) ≡ returned (true, t)) × IsText t.string (c ++ text)
unfolding grown stored
grown_lem s c text block n h f l k = (
  record {
    string = record {
      data_size = (s.string.data_size + length text) % size_max;
      chars = some (c ++ (text ++ (0 ∷ [])));
    };
    asked = n ∷ s.asked;
  },
  ap (stored s.string text (n ∷ s.asked)) (
      ap (λ z. memcpy block z (text ++ (0 ∷ []))) h.sized
      ∙ memcpy_lem block c (text ++ (0 ∷ [])) (omega (arith, l, length-append text (0 ∷ []))) k),
  record {
    sized = let q = h.sized in omega (arith, q, f, length-append c text);
    held = inr (ap some (sym (append_assoc c text (0 ∷ []))));
  },
)

-- An append to a string that holds some characters, when the sum of the lengths with the NUL fits
-- a size_t: if realloc fails it answers false and the string is as it was, and else it answers true
-- and the string holds the characters with those of the text behind them. No write is out of bounds.
append_lem :
    (a : Allocator) (s : State) (c text : List ℕ)
    → IsFilling a
    → IsText s.string c
    → length c + length text + 1 < size_max
    → ((a.grants s.asked (length c + length text + 1) ≡ false)
        × (append a s text
            ≡ returned (false, record s { asked = (length c + length text + 1) ∷ s.asked })))
      ⊎ ((a.grants s.asked (length c + length text + 1) ≡ true)
          × (t : State) × (append a s text ≡ returned (true, t))
          × IsText t.string (c ++ text))
unfolding append realloc grown
append_lem a s c text g h f =
    let n = length c + length text + 1 in
    let e : append a s text ≡ grown s text n (realloc a s.asked s.string.chars n) =
      ap (λ z. grown s text z (realloc a s.asked s.string.chars z))
        (required_size_lem s.string c text h f) in
    elim (Bool-cases (a.grants s.asked n)) [
      | inr b ↦ inl (b, e ∙ ap (grown s text n) (if_false _ _ _ b))
      | inl b ↦
          let more = a.fill s.asked n in
          let r =
            grown_lem s c text (take n (bytes s.string.chars ++ more)) n h f
              (realloc_length (bytes s.string.chars) more n (g s.asked n))
              (realloc_keeps s.string c more n h (omega arith)) in
          inr (b, r.0, e ∙ ap (grown s text n) (if_true _ _ _ b) ∙ r.1, r.2)
    ]

-- An assignment, when the length of the text with the NUL fits a size_t: it answers whether
-- realloc succeeds, and the string then holds exactly the text, and nothing if not; what the string
-- held before does not matter.
assign_lem :
    (a : Allocator) (s : State) (text : List ℕ)
    → IsFilling a
    → length text + 1 < size_max
    → (b : Bool) × (t : State) × (assign a s text ≡ returned (b, t))
      × (b ≡ a.grants s.asked (length text + 1))
      × IsText t.string (if b then text else [])
unfolding assign release
assign_lem a s text g f = elim (append_lem a (release s) [] text g released (omega (arith, f))) [
  | inl r ↦ (false, _, r.1, sym r.0 ∙ ap (a.grants s.asked) (omega arith), released)
  | inr r ↦ (true, r.1, r.2, sym r.0 ∙ ap (a.grants s.asked) (omega arith), r.3)
]
  where
    released : IsText (record { data_size = 0; chars = none }) []
    released = record { sized = refl; held = inl (refl, refl) }
