-- ===== src/Strings/Filled.antt =====
-- toStringArray.h: the array holds the strings in order, or no reference is left behind.
use platform_libnativehelper.Base.{
  if_true, if_false, ℕ, suc, ◌+◌, ◌≡◌, refl, sym, ap, ap₂, ◌∙◌, subst, ◌⊎◌, inl, inr, Bool, true,
  false, Option, none, some, List, [], ◌∷◌, ◌++◌, map, append_assoc, append-nil, ◌==◌,
  if◌then◌else◌, ==_iff, Bool-cases, length, length-append, ◌<◌, ◌^◌, arith,
}
use platform_libnativehelper.Strings.{
  State, set_object_array_element, add_strings, delete_local_ref, add_string, store, nulls, Jvm,
  to_string_array, finish, with_array, checked, to_jsize, with_class,
}
use platform_libnativehelper.Strings.Faults.{with_array_faults}

delete_first : (x : ℕ) (xs : List ℕ) → delete_local_ref x (x ∷ xs) ≡ xs
unfolding delete_local_ref
delete_first x xs = if_true (x == x) xs (x ∷ delete_local_ref x xs) ((==_iff x x).1 refl)

set-append :
    (before : List (List ℕ)) (y : Option (List ℕ)) (text : List ℕ) (rest : List (Option (List ℕ)))
    → set_object_array_element (map some before ++ (y ∷ rest)) (length before) (some text)
      ≡ map some (before ++ (text ∷ [])) ++ rest
unfolding set_object_array_element
set-append [] y text rest = refl
set-append (z ∷ before) y text rest = ap (◌∷◌ (some z)) (set-append before y text rest)

-- An index below 2 ^ 31 is its jsize.
jsize_same : (n : ℕ) → n < 2 ^ 31 → to_jsize n ≡ n
jsize_same n h = omega (arith, h)

-- The end of the loop: all strings are stored, or an exception is pending; the references are those
-- of its start, and no call was made with an exception pending.
IsFilled : List (List ℕ) → List ℕ → ℕ → Bool × State → Type 0
IsFilled all locals f (true, s) =
    (s.elements ≡ map some all) × (s.locals ≡ locals) × (s.pending ≡ false) × (s.faults ≡ f)
IsFilled all locals f (false, s) = (s.locals ≡ locals) × (s.pending ≡ true) × (s.faults ≡ f)

-- The state after the strings before, and some elements that are still NULL.
abbrev filled_to : ℕ → List (List ℕ) → ℕ → List ℕ → State
filled_to f before n locals = record {
  locals = locals;
  elements = map some before ++ nulls n;
  pending = false;
  faults = f;
}

-- The ends of a round.
Stepped : List (List ℕ) → List ℕ → ℕ → List ℕ → ℕ → Bool × State → Type 0
Stepped before text n locals f r =
    ((t : State) × (r ≡ (false, t)) × (t.locals ≡ locals) × (t.pending ≡ true) × (t.faults ≡ f))
    ⊎ (r ≡ (true, filled_to f (before ++ (text ∷ [])) n locals))

module _ (v : Jvm) (f : ℕ) where
  add_string-Stepped :
      (before : List (List ℕ)) (text : List ℕ) (n : ℕ) (locals : List ℕ) (o : Option ℕ)
      → length before < 2 ^ 31
      → Stepped before text n locals f
          (add_string v (length before) text o (filled_to f before (suc n) locals))
  unfolding add_string checked store Stepped nulls
  add_string-Stepped before text n locals none h = inl (_, refl, refl, refl, omega arith)
  add_string-Stepped before text n locals (some x) h =
      elim (Bool-cases (v.set_element (to_jsize (length before)) text)) [
        | inr b ↦ inl (_, if_false _ _ _ b, delete_first x locals, refl, omega arith)
        | inl b ↦ inr (
            if_true _ _ _ b
            ∙ ap₂
                (λ (l : List ℕ) (c : List (Option (List ℕ))).
                  (true, record { locals = l; elements = c; pending = false; faults = f + 0 }))
                (delete_first x locals)
                (ap
                    (λ i.
                      set_object_array_element (map some before ++ (none ∷ nulls n)) i (some text))
                    (jsize_same (length before) h)
                  ∙ set-append before none text (nulls n))
            ∙ ap (λ g. (true, record (filled_to f (before ++ (text ∷ [])) n locals) { faults = g }))
                (omega arith))
      ]

  add_strings-IsFilled :
      (before texts : List (List ℕ)) (locals : List ℕ)
      → length before + length texts < 2 ^ 31
      → IsFilled
          (before ++ texts)
          locals
          f
          (add_strings v (length before) texts (filled_to f before (length texts) locals))
  unfolding add_strings nulls IsFilled Stepped
  add_strings-IsFilled before [] locals h =
      (append-nil (map some before) ∙ ap (map some) (sym (append-nil before)), refl, refl, refl)
  add_strings-IsFilled before (text ∷ texts) locals h =
      let next : Bool × State → Bool × State =
        λ r. if r.0 then add_strings v (length before + 1) texts r.1 else (false, r.1) in
      let all = before ++ (text ∷ texts) in
      let longer = length-append before (text ∷ []) in
      elim (add_string-Stepped before text (length texts) locals
        (v.new_string_utf (length before) text) (omega (arith, h))) [
          | inl (t, e, l, q, g) ↦ subst (λ r. IsFilled all locals f (next r)) (sym e) (l, q, g)
          | inr e ↦
              subst (λ r. IsFilled all locals f (next r)) (sym e)
                (subst
                  (λ n. IsFilled all locals f (
                    add_strings v n texts
                      (filled_to f (before ++ (text ∷ [])) (length texts) locals)))
                  longer
                  (subst
                    (λ z. IsFilled z locals f (
                      add_strings v (length (before ++ (text ∷ []))) texts
                        (filled_to f (before ++ (text ∷ [])) (length texts) locals)))
                    (append_assoc before (text ∷ []) texts)
                    (add_strings-IsFilled (before ++ (text ∷ [])) texts locals
                      (omega (arith, h, longer)))))
        ]

-- What the call comes to: the array with all strings in order, and one local reference more, to it;
-- or nullptr with an exception pending and the local references of before.
pub IsMade : List (List ℕ) → List ℕ → ℕ → Option ℕ × State → Type 0
IsMade texts locals f (some array, s) =
    (s.elements ≡ map some texts)
    × (s.locals ≡ array ∷ locals)
    × (s.pending ≡ false)
    × (s.faults ≡ f)
IsMade texts locals f (none, s) = (s.locals ≡ locals) × (s.pending ≡ true) × (s.faults ≡ f)

finish-IsMade :
    (texts : List (List ℕ)) (locals : List ℕ) (f array : ℕ) (r : Bool × State)
    → IsFilled texts (array ∷ locals) f r
    → IsMade texts locals f (finish array r)
unfolding finish IsFilled IsMade
finish-IsMade texts locals f array (true, s) h = h
finish-IsMade texts locals f array (false, s) h =
    (ap (delete_local_ref array) h.0 ∙ delete_first array locals, h.1, h.2)

with_array-IsMade :
    (v : Jvm) (texts : List (List ℕ)) (o : Option ℕ) (locals : List ℕ) (f : ℕ)
    (elements : List (Option (List ℕ)))
    → length texts < 2 ^ 31
    → IsMade texts locals f (
        with_array v texts o
          (record { locals = locals; elements = elements; pending = false; faults = f }))
unfolding with_array IsMade
with_array-IsMade v texts none locals f elements h = (refl, refl, refl)
with_array-IsMade v texts (some array) locals f elements h =
    subst
      (λ n. IsMade texts locals f (
        finish array (
          add_strings v 0 texts
            (record { locals = array ∷ locals; elements = nulls n; pending = false; faults = f }))))
      (sym (jsize_same (length texts) h))
      (finish-IsMade texts locals f array _
        (add_strings-IsFilled v f [] texts (array ∷ locals) (omega (arith, h))))

-- What the call comes to, by the answer to FindClass for java/lang/String.
pub IsAnswered : List (List ℕ) → State → Option ℕ → Option ℕ × State → Type 0
IsAnswered texts s (some class) r = IsMade texts s.locals s.faults r
IsAnswered texts s none r = s.faults < r.1.faults

with_class-IsAnswered :
    (v : Jvm) (texts : List (List ℕ)) (o : Option ℕ) (l : List ℕ) (e : List (Option (List ℕ)))
    (f : ℕ)
    → length texts < 2 ^ 31
    → IsAnswered texts
        (record { locals = l; elements = e; pending = false; faults = f })
        o
        (with_class v texts o (record { locals = l; elements = e; pending = false; faults = f }))
unfolding with_class IsAnswered
with_class-IsAnswered v texts none l e f h =
    let s : State = record { locals = l; elements = e; pending = true; faults = f + 0 + 1 } in
    omega (arith, with_array_faults v texts (v.new_object_array none (to_jsize (length texts))) s)
with_class-IsAnswered v texts (some class) l e f h =
    let o = v.new_object_array (some class) (to_jsize (length texts)) in
    subst
      (λ g. IsMade texts l f (
        with_array v texts o (record {
          locals = delete_local_ref class (class ∷ l);
          elements = e;
          pending = false;
          faults = g;
        })))
      (omega arith)
      (subst
        (λ k.
          IsMade texts l f (
            with_array v texts o
              (record { locals = k; elements = e; pending = false; faults = f })))
        (sym (delete_first class l)) (with_array-IsMade v texts o l f e h))

-- For fewer than 2^31 strings and with no exception pending: if FindClass finds java/lang/String, no
-- call is made with an exception pending, and the call either returns an array that holds all the
-- strings in their order, and leaves one local reference more, to that array, and no exception; or
-- it returns nullptr with an exception pending, and leaves the local references that there were
-- before; if FindClass fails, a call is made with its exception pending.
pub to_string_array-IsMade :
    (v : Jvm) (texts : List (List ℕ)) (s : State)
    → s.pending ≡ false
    → length texts < 2 ^ 31
    → IsAnswered texts s v.string_class (to_string_array v texts s)
unfolding to_string_array
to_string_array-IsMade v texts s p h =
    subst
      (λ b.
        IsAnswered texts (record s { pending = b }) v.string_class
          (with_class v texts v.string_class (record s { pending = b })))
      (sym p) (with_class-IsAnswered v texts v.string_class s.locals s.elements s.faults h)
