-- ===== src/Text/Refinement.antt =====
-- ExpandableString.c: the blocks of the heap, their sizes and the copies between them behave as a
-- string that is appended to, assigned and released.
use platform_libnativehelper.Base.{
  Outcome, returned, ℕ, ◌+◌, ◌%◌, ◌≤◌, ◌<◌, ◌≡◌, refl, sym, ap, ◌∙◌, subst, inl, inr, Bool, true,
  false, Option, none, some, List, [], ◌∷◌, ◌++◌, append_assoc, arith, if◌then◌else◌, length, take,
  length-append,
}
use platform_libnativehelper.Base.{◌>>=◌}
use platform_libnativehelper.Text.Abstract.{Chars, grow, chars, needed, AbstractText, extended}
use platform_libnativehelper.Text.{
  State, Allocator, append, grown, assign, realloc, release, size_max, stored, bytes, memcpy,
}
use platform_libnativehelper.Text.Contents.{
  IsFilling, IsText, memcpy_lem, realloc_length, realloc_keeps, required_size_lem,
}

pub data TextOperation : Type 0 where
  appending : List ℕ → TextOperation
  assigning : List ℕ → TextOperation
  releasing : TextOperation

-- The functions of ExpandableString.c, for each operation.
abbrev pub perform_text : Allocator → TextOperation → State → Outcome (Bool × State)
perform_text a (appending text) s = append a s text
perform_text a (assigning text) s = assign a s text
perform_text a releasing s = returned (true, release s)

abbrev pub perform_texts : Allocator → List TextOperation → State → Outcome (List Bool × State)
perform_texts a [] s = returned ([], s)
perform_texts a (o ∷ os) s = do
  r ← perform_text a o s
  rs ← perform_texts a os r.1
  returned (r.0 ∷ rs.0, rs.1)

-- The operations on the abstract string.
abbrev pub abstract_text : Allocator → TextOperation → AbstractText → Bool × AbstractText
abstract_text a (appending text) x = extended a x.0 x.1 text
abstract_text a (assigning text) x = extended a none x.1 text
abstract_text a releasing x = (true, (none, x.1))

abbrev pub abstract_texts : Allocator → List TextOperation → AbstractText → List Bool × AbstractText
abstract_texts a [] x = ([], x)
abstract_texts a (o ∷ os) x =
    let r = abstract_text a o x in let rs = abstract_texts a os r.1 in (r.0 ∷ rs.0, rs.1)

-- The block holds the characters and a NUL, or it is NULL.
abbrev pub block_of : Chars → Option (List ℕ)
block_of none = none
block_of (some c) = some (c ++ (0 ∷ []))

pub record IsRefined (s : State) (x : AbstractText) : Type 0 where
  pub sized : s.string.data_size ≡ length (chars x.0)
  pub held : s.string.chars ≡ block_of x.0
  pub same : s.asked ≡ x.1

abbrev pub text_size : TextOperation → ℕ
text_size (appending text) = length text
text_size (assigning text) = length text
text_size releasing = 0

abbrev pub text_sizes : List TextOperation → ℕ
text_sizes [] = 0
text_sizes (o ∷ os) = text_size o + text_sizes os

IsRefined-IsText : (s : State) (x : AbstractText) → IsRefined s x → IsText s.string (chars x.0)
IsRefined-IsText s (none, k) h = record { sized = h.sized; held = inl (h.held, refl) }
IsRefined-IsText s (some c, k) h = record { sized = h.sized; held = inr h.held }

-- The operation returns what the abstract one says.
abbrev IsStep : Outcome (Bool × State) → Bool × AbstractText → Type 0
IsStep r y = (t : State) × (r ≡ returned (y.0, t)) × IsRefined t y.1

module _ (a : Allocator) (filling : IsFilling a) where
  stored_refined :
      (s : State) (d : Chars) (asked text : List ℕ)
      → IsRefined s (d, asked)
      → length (chars d) + length text + 1 < size_max
      → IsStep
          (grown s text
            (needed d text)
            (some (take (needed d text) (bytes s.string.chars ++ a.fill s.asked (needed d text)))))
          (true, (some (chars d ++ text), needed d text ∷ asked))
  unfolding grown stored
  stored_refined s d asked text h f =
      let t = IsRefined-IsText s (d, asked) h in
      let m = a.fill s.asked (needed d text) in
      let n = needed d text in
      let block = take n (bytes s.string.chars ++ m) in
      (
        record {
          string = record {
            data_size = (s.string.data_size + length text) % size_max;
            chars = some (chars d ++ (text ++ (0 ∷ [])));
          };
          asked = n ∷ s.asked;
        },
        ap (stored s.string text (n ∷ s.asked)) (
            ap (λ z. memcpy block z (text ++ (0 ∷ []))) h.sized
            ∙ memcpy_lem block (chars d) (text ++ (0 ∷ []))
                (realloc_length (bytes s.string.chars) m n (filling s.asked n)
                  ∙ (let l = length-append text (0 ∷ []) in omega (arith, l)))
                (realloc_keeps s.string (chars d) m n t (omega arith))),
        record {
          sized = let q = h.sized in let l = length-append (chars d) text in omega (arith, q, f, l);
          held = ap some (sym (append_assoc (chars d) text (0 ∷ [])));
          same = ap (λ z. n ∷ z) h.same;
        },
      )

  append_refined :
      (s : State) (d : Chars) (asked text : List ℕ)
      → IsRefined s (d, asked)
      → length (chars d) + length text + 1 < size_max
      → IsStep (append a s text) (extended a d asked text)
  unfolding append realloc grown
  append_refined s d asked text h f =
      subst (λ r. IsStep r (extended a d asked text))
        (sym (
          ap (λ z. grown s text z (realloc a s.asked s.string.chars z))
            (required_size_lem s.string (chars d) text (IsRefined-IsText s (d, asked) h) f)))
        (subst (λ k. IsStep (by_grant (a.grants s.asked n)) (answer (a.grants k n))) h.same
          (granted (a.grants s.asked n)))
    where
      n : ℕ
      n = needed d text

      by_grant : Bool → Outcome (Bool × State)
      by_grant b =
          grown s text n
            (if b then some (take n (bytes s.string.chars ++ a.fill s.asked n)) else none)

      answer : Bool → Bool × AbstractText
      answer b = ((grow b d text).0, ((grow b d text).1, n ∷ asked))

      granted : (b : Bool) → IsStep (by_grant b) (answer b)
      granted true = stored_refined s d asked text h f
      granted false = (
        record s { asked = n ∷ s.asked },
        refl,
        record { sized = h.sized; held = h.held; same = ap (λ z. n ∷ z) h.same },
      )

  released :
      (s : State) (d : Chars) (asked : List ℕ)
      → IsRefined s (d, asked)
      → IsRefined (release s) (none, asked)
  unfolding release
  released s d asked h = record { sized = refl; held = refl; same = h.same }

  perform_text-IsStep :
      (o : TextOperation) (s : State) (x : AbstractText)
      → IsRefined s x
      → length (chars x.0) + text_size o + 1 < size_max
      → IsStep (perform_text a o s) (abstract_text a o x)
  unfolding assign
  perform_text-IsStep (appending text) s (d, asked) h f = append_refined s d asked text h f
  perform_text-IsStep (assigning text) s (d, asked) h f =
      append_refined (release s) none asked text (released s d asked h) (omega (arith, f))
  perform_text-IsStep releasing s (d, asked) h f = (release s, refl, released s d asked h)

  grow_size :
      (b : Bool) (d : Chars) (text : List ℕ)
      → length (chars ((grow b d text).1)) ≤ length (chars d) + length text
  grow_size true d text = let l = length-append (chars d) text in omega (arith, l)
  grow_size false d text = omega arith

  step_size :
      (o : TextOperation) (x : AbstractText)
      → length (chars ((abstract_text a o x).1.0)) ≤ length (chars x.0) + text_size o
  step_size (appending text) (d, asked) = grow_size (a.grants asked (needed d text)) d text
  step_size (assigning text) (d, asked) =
      let g = grow_size (a.grants asked (needed none text)) none text in omega (arith, g)
  step_size releasing x = omega arith

  -- Any sequence of appends, assignments and releases on the blocks of the heap, when the sum of all
  -- lengths with a NUL fits a size_t, returns the answers that the abstract string gives, and ends
  -- in a block that holds the abstract string with a NUL, or in NULL where that has none; no write
  -- is out of bounds.
  pub perform_texts_lem :
      (os : List TextOperation) (s : State) (x : AbstractText)
      → IsRefined s x
      → length (chars x.0) + text_sizes os + 1 < size_max
      → (t : State) × (perform_texts a os s ≡ returned ((abstract_texts a os x).0, t))
        × IsRefined t ((abstract_texts a os x).1)
  perform_texts_lem [] s x h f = (s, refl, h)
  perform_texts_lem (o ∷ os) s x h f =
      let st = perform_text-IsStep o s x h (omega (arith, f)) in
      let g = step_size o x in
      let r = perform_texts_lem os st.0 (abstract_text a o x).1 st.2 (omega (arith, f, g)) in
      (
        r.0,
        ap (λ z. z >>= λ v. (perform_texts a os v.1 >>= λ vs. returned (v.0 ∷ vs.0, vs.1))) st.1
            ∙ ap (λ z. z >>= λ vs. returned ((abstract_text a o x).0 ∷ vs.0, vs.1)) r.1,
        r.2,
      )
