-- ===== src/Lazy/Bound.antt =====
-- libnativehelper_lazy.c: what InitializeOnce makes of the table.
use platform_libnativehelper.Base.{
  some_not_none, Outcome, aborted, returned, ℕ, suc, ◌≡◌, refl, sym, ap, ◌∙◌, subst, ◌≢◌, ◌⊎◌, inl,
  inr, Option, none, some, List, [], ◌∷◌, ◌++◌, map, append_assoc, arith, Option-cases, length,
  get_elem?, length-append, All,
}
use platform_libnativehelper.Lazy.{
  index, Linker, MethodIndex, set_elem, all_methods, symbol_name, bind_symbols, bind_symbol,
  check_bound, a_file_descriptor_create,
}

-- The address of the code of a method in a library.
abbrev pub address_of : Linker → ℕ → MethodIndex → Option ℕ
address_of k handle m = k.dlsym handle (symbol_name m)

-- Every symbol is in the library.
abbrev pub IsComplete : Linker → ℕ → Type 0
IsComplete k handle = (m : MethodIndex) → address_of k handle m ≢ none

-- The enumerators of a list count up from a number.
abbrev Consecutive : ℕ → List MethodIndex → Type 0
Consecutive n [] = Unit {0}
Consecutive n (m ∷ ms) = (index m ≡ n) × Consecutive (suc n) ms

pub all_methods-Consecutive : Consecutive 0 all_methods
unfolding index
all_methods-Consecutive = (
  refl,
  (
    refl,
    (
      refl,
      (
        refl,
        (refl, (refl, (refl, (refl, (refl, (refl, (refl, (refl, (refl, (refl, (refl, tt))))))))))),
      ),
    ),
  ),
)

-- The slot of a method is its place in the order of the BIND_SYMBOL lines.
pub get_elem-index :
    {B : Type 0} (f : MethodIndex → B) (m : MethodIndex)
    → get_elem? (map f all_methods) (index m) ≡ some (f m)
unfolding index
get_elem-index f a_file_descriptor_create = refl
get_elem-index f _ = refl

set_elem-append :
    (before : List (Option ℕ)) (x y : Option ℕ) (rest : List (Option ℕ))
    → set_elem (before ++ (x ∷ rest)) (length before) y ≡ before ++ (y ∷ rest)
unfolding set_elem
set_elem-append [] x y rest = refl
set_elem-append (z ∷ before) x y rest = ap (◌∷◌ z) (set_elem-append before x y rest)

module _ (k : Linker) (handle : ℕ) where
  -- The outcome of the BIND_SYMBOL lines: all symbols found, or the process stopped.
  unfoldable pub Filled : List MethodIndex → List (Option ℕ) → Outcome (List (Option ℕ)) → Type 0
  Filled ms before o =
      ((o ≡ returned (before ++ map (address_of k handle) ms))
        × All (λ m. address_of k handle m ≢ none) ms)
      ⊎ ((o ≡ aborted) × (m : MethodIndex) × (address_of k handle m ≡ none))

  Filled-cons :
      (m : MethodIndex) (ms : List MethodIndex) (a : ℕ) (before : List (Option ℕ))
      (o : Outcome (List (Option ℕ)))
      → address_of k handle m ≡ some a
      → Filled ms (before ++ (some a ∷ [])) o
      → Filled (m ∷ ms) before o
  unfolding Filled
  Filled-cons m ms a before o q (inr h) = inr h
  Filled-cons m ms a before o q (inl (e, h)) = inl (
    e
        ∙ ap returned (
            append_assoc before (some a ∷ []) _
            ∙ ap (λ x. before ++ (x ∷ map (address_of k handle) ms)) (sym q)),
    (λ n. some_not_none a (sym q ∙ n), h),
  )

  bind_symbols-cons :
      (m : MethodIndex) (ms : List MethodIndex) (a : ℕ) (before : List (Option ℕ)) (x : Option ℕ)
      (rest : List (Option ℕ))
      → index m ≡ length before
      → address_of k handle m ≡ some a
      → bind_symbols k handle (m ∷ ms) (before ++ (x ∷ rest))
        ≡ bind_symbols k handle ms ((before ++ (some a ∷ [])) ++ rest)
  unfolding bind_symbols bind_symbol
  bind_symbols-cons m ms a before x rest c q = rw (
    bind_symbols,
    bind_symbol,
    q,
    c,
    set_elem-append before x (some a) rest,
    append_assoc before (some a ∷ []) rest,
  )

  pub bind_symbols-Filled :
      (ms : List MethodIndex) (before rest : List (Option ℕ))
      → Consecutive (length before) ms
      → length rest ≡ length ms
      → Filled ms before (bind_symbols k handle ms (before ++ rest))
  unfolding bind_symbols bind_symbol Filled
  bind_symbols-Filled [] before [] c e = inl (refl, tt)
  bind_symbols-Filled [] before (x ∷ rest) c e = absurd (omega (arith, e))
  bind_symbols-Filled (m ∷ ms) before [] c e = absurd (omega (arith, e))
  bind_symbols-Filled (m ∷ ms) before (x ∷ rest) (c, cs) e =
      elim (Option-cases (k.dlsym handle (symbol_name m))) [
        | inl q ↦ inr (rw (bind_symbols, bind_symbol, q), m, q)
        | inr (a, q) ↦ Filled-cons m ms a before _ q (
            subst (Filled ms (before ++ (some a ∷ [])))
              (sym (bind_symbols-cons m ms a before x rest c q))
              (bind_symbols-Filled ms (before ++ (some a ∷ [])) rest
                (subst (λ n. Consecutive n ms) (omega (arith, length-append before (some a ∷ [])))
                  cs)
                (omega (arith, e))))
      ]

  pub check_bound_lem :
      (ms : List MethodIndex)
      → All (λ m. address_of k handle m ≢ none) ms
      → check_bound (map (address_of k handle) ms) ≡ returned tt
  unfolding check_bound
  check_bound_lem [] h = refl
  check_bound_lem (m ∷ ms) (h, hs) = elim (Option-cases (address_of k handle m)) [
    | inl q ↦ absurd (h q)
    | inr (a, q) ↦ (rw q) ∙ check_bound_lem ms hs
  ]
