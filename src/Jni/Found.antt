-- ===== src/Jni/Found.antt =====
-- What single calls of a JNI environment come to: calls that always have a result, GetStringUTFChars,
-- Throw and ExceptionOccurred.
use platform_libnativehelper.Jni.{
  throw_ref, perform_local, Ref, string_utf_chars, Env, perform, Vm, exception_occurred, JniCall,
  Answer, occurred, result, is_live, call_live, value_of, thrown, referred, answered,
  get_string_utf_chars, throw, raised, null_result, release_string_utf_chars, with_held, fault,
}
use platform_libnativehelper.Base.{
  ℕ, suc, ◌≤◌, ◌≡◌, refl, sym, ap, subst, inl, inr, Bool, true, false, Option, none, some, List,
  ◌∷◌, arith, Option-cases, ◌+◌, ◌&&◌, ◌∙◌,
}
use platform_libnativehelper.Jni.Rules.{
  IsAt, IsCalm, referred_lem, no_fault, answered_lem, is_live_first,
}

-- The virtual machine always has a result for this call.
abbrev pub IsFound : Vm → JniCall → Type 0
IsFound vm c = (calls : List JniCall) → (x : ℕ) × (vm.answer calls c ≡ result x)

-- After a call that always has a result.
abbrev pub IsGiven : List ℕ → ℕ → ℕ → Option Ref × Env → Type 0
IsGiven l n f (none, e) = ⊥
IsGiven l n f (some r, e) = (n ≤ r.handle) × IsAt (r.handle ∷ l) (suc r.handle) f e × IsCalm e

abbrev pub IsValued : List ℕ → ℕ → ℕ → Option ℕ × Env → Type 0
IsValued l n f (none, e) = ⊥
IsValued l n f (some x, e) = IsAt l n f e × IsCalm e

-- After GetStringUTFChars.
abbrev pub IsRead : List ℕ → ℕ → ℕ → Option ℕ × Env → Type 0
IsRead l n f (none, e) = IsAt l n f e
IsRead l n f (some t, e) = IsAt l n f e × IsCalm e × (is_live t e.held ≡ true)

-- After Throw.
abbrev pub IsThrown : List ℕ → ℕ → ℕ → ℕ → Bool × Env → Type 0
IsThrown l n f x (false, e) = IsAt l n f e
IsThrown l n f x (true, e) = IsAt l n f e × (e.pending ≡ some x)

-- After ExceptionOccurred.
abbrev pub IsOccurred : List ℕ → ℕ → ℕ → Option ℕ → Option Ref × Env → Type 0
IsOccurred l n f p (none, e) = IsAt l n f e × (p ≡ none) × IsCalm e
IsOccurred l n f p (some r, e) =
    (n ≤ r.handle)
    × IsAt (r.handle ∷ l) (suc r.handle) f e
    × (p ≡ some r.object)
    × (e.pending ≡ some r.object)

module _ {l : List ℕ} {n f : ℕ} where
  pub perform_local_found :
      (vm : Vm) (c : JniCall) (e : Env)
      → IsFound vm c
      → IsAt l n f e
      → IsCalm e
      → call_live c l ≡ true
      → IsGiven l n f (perform_local vm c e)
  unfolding perform_local
  perform_local_found vm c e g h p q =
      let x = g e.calls in
      subst (λ a. IsGiven l n f (referred c a e)) (sym x.1) (referred_lem c (result x.0) e h p q)

  pub perform_found :
      (vm : Vm) (c : JniCall) (e : Env)
      → IsFound vm c
      → IsAt l n f e
      → IsCalm e
      → call_live c l ≡ true
      → IsValued l n f (perform vm c e)
  unfolding perform
  perform_found vm c e g h p q =
      let x = g e.calls in
      subst (λ a. IsValued l n f (value_of a, answered c a e)) (sym x.1)
        (answered_lem c (result x.0) e h p q, p)

  chars_lem :
      (r : Ref) (x : Answer) (e : Env)
      → IsAt l n f e
      → IsCalm e
      → is_live r.handle l ≡ true
      → IsRead l n f (with_held (value_of x, answered (get_string_utf_chars (some r)) x e))
  chars_lem r null_result e h p q = answered_lem _ null_result e h p q
  chars_lem r (raised x) e h p q = answered_lem _ (raised x) e h p q
  chars_lem r (result x) e h p q =
      let a = answered_lem (get_string_utf_chars (some r)) (result x) e h p q in
      (record { held = a.held; fresh = a.fresh; faulted = a.faulted }, p, is_live_first x e.held)

  pub string_utf_chars_lem :
      (vm : Vm) (r : Ref) (e : Env)
      → IsAt l n f e
      → IsCalm e
      → is_live r.handle l ≡ true
      → IsRead l n f (string_utf_chars vm (some r) e)
  unfolding string_utf_chars
  string_utf_chars_lem vm r e h p q = chars_lem r (vm.answer e.calls _) e h p q

  pub release_string_utf_chars_lem :
      (r : Ref) (x : ℕ) (e : Env)
      → IsAt l n f e
      → is_live x e.held ≡ true
      → is_live r.handle l ≡ true
      → IsAt l n f ((release_string_utf_chars (some r) x e).1)
  unfolding release_string_utf_chars
  release_string_utf_chars_lem r x e h w q = record {
    held = h.held;
    fresh = h.fresh;
    faulted =
        ap (λ z. e.faults + fault none (z && is_live r.handle e.locals)) w
        ∙ ap (λ z. e.faults + fault none (is_live r.handle z)) h.held
        ∙ ap (λ z. e.faults + fault none z) q
        ∙ (let g = h.faulted in omega (arith, g));
  }

  pub thrown_lem :
      (r : Ref) (x : Answer) (e : Env)
      → IsAt l n f e
      → IsCalm e
      → is_live r.handle l ≡ true
      → IsThrown l n f r.object (thrown (some r) x e)
  thrown_lem r null_result e h p q =
      (record { held = h.held; fresh = h.fresh; faulted = no_fault e (throw (some r)) h p q }, refl)
  thrown_lem r (raised x) e h p q = answered_lem (throw (some r)) (raised x) e h p q
  thrown_lem r (result x) e h p q = answered_lem (throw (some r)) (result x) e h p q

  pub throw_ref_lem :
      (vm : Vm) (r : Ref) (e : Env)
      → IsAt l n f e
      → IsCalm e
      → is_live r.handle l ≡ true
      → IsThrown l n f r.object (throw_ref vm (some r) e)
  unfolding throw_ref
  throw_ref_lem vm r e h p q = thrown_lem r (vm.answer e.calls _) e h p q

  pub exception_occurred_lem :
      (e : Env) → IsAt l n f e → IsOccurred l n f e.pending (exception_occurred e)
  unfolding exception_occurred
  exception_occurred_lem e h = elim (Option-cases e.pending) [
    | inl p ↦ subst (λ z. IsOccurred l n f e.pending (occurred z e)) (sym p) (h, p, p)
    | inr (x, p) ↦
        subst (λ z. IsOccurred l n f e.pending (occurred z e)) (sym p)
          (
            h.fresh,
            record { held = ap (λ z. e.next ∷ z) h.held; fresh = omega arith; faulted = h.faulted },
            p,
            p,
          )
  ]
