-- ===== src/Strings/Faults.antt =====
-- toStringArray.h: no step takes back a call that was made with an exception pending.
use platform_libnativehelper.Base.{
  if_true, if_false, ℕ, ◌+◌, ◌≡◌, refl, sym, ap, subst, inl, inr, Bool, true, false, Option, none,
  some, List, [], ◌∷◌, Bool-cases, length, arith, ◌≤◌,
}
use platform_libnativehelper.Strings.{
  State, add_strings, add_string, store, nulls, Jvm, finish, with_array, checked, to_jsize,
}

store_faults :
    (v : Jvm) (i : ℕ) (text : List ℕ) (x : ℕ) (s : State) → (store v i text x s).1.faults ≡ s.faults
unfolding store
store_faults v i text x s = elim (Bool-cases (v.set_element (to_jsize i) text)) [
  | inl b ↦ ap (λ (r : Bool × State). r.1.faults) (if_true _ _ _ b)
  | inr b ↦ ap (λ (r : Bool × State). r.1.faults) (if_false _ _ _ b)
]

add_string_faults :
    (v : Jvm) (i : ℕ) (text : List ℕ) (o : Option ℕ) (l : List ℕ) (e : List (Option (List ℕ)))
    (b : Bool) (f : ℕ)
    → f
      ≤ (add_string v i text o
          (record { locals = l; elements = e; pending = b; faults = f })).1.faults
unfolding add_string checked
add_string_faults v i text none l e b f = omega arith
add_string_faults v i text (some x) l e true f = omega arith
add_string_faults v i text (some x) l e false f = omega (
  arith,
  store_faults v i text x (record { locals = l; elements = e; pending = false; faults = f + 0 }),
)

add_strings_faults :
    (v : Jvm) (i : ℕ) (texts : List (List ℕ)) (s : State)
    → s.faults ≤ (add_strings v i texts s).1.faults
unfolding add_strings
add_strings_faults v i [] s = omega arith
add_strings_faults v i (text ∷ texts) s =
    let o = v.new_string_utf i text in
    let r = add_string v i text o s in
    let first = add_string_faults v i text o s.locals s.elements s.pending s.faults in
    let rest = add_strings_faults v (i + 1) texts r.1 in
    elim (Bool-cases r.0) [
      | inl b ↦
          subst (λ (z : Bool × State). s.faults ≤ z.1.faults) (sym (if_true _ _ _ b))
            (omega (arith, first, rest))
      | inr b ↦ subst (λ (z : Bool × State). s.faults ≤ z.1.faults) (sym (if_false _ _ _ b)) first
    ]

finish_faults : (array : ℕ) (r : Bool × State) → (finish array r).1.faults ≡ r.1.faults
unfolding finish
finish_faults array (true, s) = refl
finish_faults array (false, s) = refl

pub with_array_faults :
    (v : Jvm) (texts : List (List ℕ)) (o : Option ℕ) (s : State)
    → s.faults ≤ (with_array v texts o s).1.faults
unfolding with_array
with_array_faults v texts none s = omega arith
with_array_faults v texts (some array) s =
    let t : State = record s {
      locals = array ∷ s.locals;
      elements = nulls (to_jsize (length texts));
    } in
    omega (arith, add_strings_faults v 0 texts t, finish_faults array (add_strings v 0 texts t))
