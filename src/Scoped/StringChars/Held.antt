-- ===== src/Scoped/StringChars/Held.antt =====
-- scoped_string_chars.h: what a holder acquires and gives back.
use platform_libnativehelper.Jni.{
  Vm, throw_new_of, Env, JniCall, exception_clear, find_class, delete_local_ref, null_result, Ref,
  minus_one, is_pending, throw_new, result, get_string_chars, get_string_length, raised, Answer,
  thrown_new, answered, length_of, exception_check, string_chars, string_length, perform_local,
  referred, ref_live, with_held, value_of, target_live, release_string_chars, fault, is_live,
  remove,
}
use platform_libnativehelper.Base.{
  some_not_none, if_true, ℕ, suc, ◌+◌, ◌≤◌, ◌≡◌, refl, sym, ap, ◌∙◌, subst, ◌≢◌, ◌⊎◌, inl, inr,
  true, Option, none, some, List, ◌∷◌, arith, ==_iff, and_intro,
}
use platform_libnativehelper.Scoped.StringChars.{
  clear_if, null_pointer_class, throw_of, thrown_status, construct, StringChars,
  jni_throw_null_pointer, with_size, destroy, release_held,
}
use platform_libnativehelper.Jni.Rules.{
  IsAt, is_live_first, IsCalm, answered_lem, exception_clear_lem, referred_lem, IsAt-weaken,
  delete_first_lem,
}

-- NULL comes with an exception, and GetStringLength raises none.
pub record IsReporting (vm : Vm) : Type 0 where
  pub class :
      (calls : List JniCall) (name : List ℕ) → vm.answer calls (find_class name) ≢ null_result
  pub thrown : (calls : List JniCall) (c : Option Ref) → vm.answer calls (throw_new c) ≢ null_result
  pub characters :
      (calls : List JniCall) (s : Option Ref) → vm.answer calls (get_string_chars s) ≢ null_result
  pub size :
      (calls : List JniCall) (s : Option Ref) (x : ℕ)
      → vm.answer calls (get_string_length s) ≢ raised x

-- A new NullPointerException is pending and the status is 0, or another exception and it is -1.
abbrev pub IsNullThrown : Vm → List ℕ → ℕ → ℕ → List ℕ → ℕ × Env → Type 0
IsNullThrown vm l n f held (status, e) =
    IsAt l n f e
    × (e.held ≡ held)
    × (x : ℕ) × (e.pending ≡ some x)
    × ((status ≡ minus_one)
        ⊎ ((status ≡ 0)
            × (c : Ref) × (calls : List JniCall) × ((earlier : List JniCall) × (vm.answer earlier
                    (find_class null_pointer_class)
                  ≡ result c.object))
            × (vm.answer calls (throw_new (some c)) ≡ result x)))

module _ (vm : Vm) (report : IsReporting vm) (l : List ℕ) (n f : ℕ) where
  cleared :
      (e : Env)
      → IsAt l n f e
      → IsAt l n f ((clear_if (is_pending e.pending) e).1)
        × IsCalm ((clear_if (is_pending e.pending) e).1)
        × ((clear_if (is_pending e.pending) e).1.held ≡ e.held)
  unfolding exception_clear
  cleared e h = by_pending e.pending refl
    where
      by_pending :
          (o : Option ℕ)
          → e.pending ≡ o
          → IsAt l n f ((clear_if (is_pending o) e).1)
            × IsCalm ((clear_if (is_pending o) e).1)
            × ((clear_if (is_pending o) e).1.held ≡ e.held)
      by_pending none p = (h, p, refl)
      by_pending (some x) p = let c = exception_clear_lem e h in (c.0, c.1, refl)

  thrown_of_class :
      (c : Ref) (e : Env)
      → n ≤ c.handle
      → ((earlier : List JniCall) × (vm.answer earlier (find_class null_pointer_class)
            ≡ result c.object))
      → IsAt (c.handle ∷ l) (suc c.handle) f e
      → IsCalm e
      → IsNullThrown vm l n f e.held (throw_of vm (some c) e)
  unfolding throw_new_of delete_local_ref
  thrown_of_class c e o found h p = from (vm.answer e.calls (throw_new (some c))) refl
    where
      q : JniCall
      q = throw_new (some c)

      deleted :
          (x : ℕ) (y : Answer)
          → IsAt l n f
              ((delete_local_ref (some c) (record (answered q y e) { pending = some x })).1)
      deleted x y =
          let k = answered_lem q y e h p (is_live_first c.handle l) in
          IsAt-weaken n (omega (arith, o))
            (delete_first_lem c (record (answered q y e) { pending = some x })
              (record { held = k.held; fresh = k.fresh; faulted = k.faulted })).0

      from :
          (y : Answer)
          → vm.answer e.calls q ≡ y
          → IsNullThrown vm l n f e.held
              (thrown_status vm (some c) (thrown_new (some c) y e).0 (thrown_new (some c) y e).1)
      from null_result w = absurd (report.thrown e.calls (some c) w)
      from (result x) w = (deleted x (result x), refl, x, refl, inr (refl, c, e.calls, found, w))
      from (raised x) w = (deleted x (raised x), refl, x, refl, inl refl)

  -- The jniThrowNullPointerException of nativehelper_utils.h, whatever is pending, when FindClass
  -- and ThrowNew that fail leave an exception: status 0 and the new exception of
  -- java/lang/NullPointerException pending, or status -1 and some exception pending; no call is one
  -- that the JNI specification forbids, and no local reference is left.
  pub jni_throw_null_pointer_lem :
      (e : Env) → IsAt l n f e → IsNullThrown vm l n f e.held (jni_throw_null_pointer vm e)
  unfolding jni_throw_null_pointer exception_check perform_local
  jni_throw_null_pointer_lem e h = from (vm.answer e'.calls q) refl
    where
      q : JniCall
      q = find_class null_pointer_class

      e' : Env
      e' = (clear_if (is_pending e.pending) e).1

      k : IsAt l n f e' × IsCalm e' × (e'.held ≡ e.held)
      k = cleared e h

      from :
          (y : Answer)
          → vm.answer e'.calls q ≡ y
          → IsNullThrown vm l n f e.held (throw_of vm (referred q y e').0 (referred q y e').1)
      from null_result w = absurd (report.class e'.calls null_pointer_class w)
      from (raised x) w = (answered_lem q (raised x) e' k.0 k.1 refl, k.2, x, refl, inl refl)
      from (result x) w =
          let r = referred_lem q (result x) e' k.0 k.1 refl in
          subst
            (λ z.
              IsNullThrown vm l n f z
                (throw_of vm (referred q (result x) e').0 (referred q (result x) e').1))
            k.2 (thrown_of_class _ _ r.0 (e'.calls, w) r.1 r.2)

-- What the constructor leaves: no characters and an exception, or the characters and their number.
abbrev pub IsConstructed : Vm → List ℕ → ℕ → ℕ → Option Ref → Env → StringChars × Env → Type 0
IsConstructed vm l n f s e (h, e') =
    IsAt l n f e'
    × (h.string ≡ s)
    × (((h.chars ≡ none) × (h.size ≡ 0) × (e'.held ≡ e.held) × (x : ℕ) × (e'.pending ≡ some x))
        ⊎ ((x : ℕ) × (h.chars ≡ some x)
            × (e'.held ≡ x ∷ e.held)
            × IsCalm e'
            × (s ≢ none)
            × (h.size
                ≡ length_of (vm.answer (get_string_chars s ∷ e.calls) (get_string_length s)))))

module _ (vm : Vm) (report : IsReporting vm) (l : List ℕ) (n f : ℕ) where
  construct_lem :
      (s : Option Ref) (e : Env)
      → IsAt l n f e
      → IsCalm e
      → ref_live s l ≡ true
      → IsConstructed vm l n f s e (construct vm s e)
  unfolding construct string_chars string_length
  construct_lem none e h p live =
      let t = jni_throw_null_pointer_lem vm report l n f e h in
      (t.0, refl, inl (refl, refl, t.1, t.2, t.3))
  construct_lem (some s) e h p live = from (vm.answer e.calls q) refl
    where
      q : JniCall
      q = get_string_chars (some s)

      sized :
          (x : ℕ) (y : Answer) (e' : Env)
          → e'.held ≡ x ∷ e.held
          → IsAt l n f e'
          → IsCalm e'
          → vm.answer e'.calls (get_string_length (some s)) ≡ y
          → IsAt l n f (answered (get_string_length (some s)) y e')
            × ((answered (get_string_length (some s)) y e').held ≡ x ∷ e.held)
            × IsCalm (answered (get_string_length (some s)) y e')
      sized x null_result e' g h p w = (answered_lem _ null_result e' h p live, g, p)
      sized x (result m) e' g h p w = (answered_lem _ (result m) e' h p live, g, p)
      sized x (raised m) e' g h p w = absurd (report.size e'.calls (some s) m w)

      from :
          (y : Answer)
          → vm.answer e.calls q ≡ y
          → IsConstructed vm l n f (some s) e (
              with_size vm s
                (with_held (value_of y, answered q y e)).0
                (with_held (value_of y, answered q y e)).1)
      from null_result w = absurd (report.characters e.calls (some s) w)
      from (raised x) w =
          (answered_lem q (raised x) e h p live, refl, inl (refl, refl, refl, x, refl))
      from (result x) w =
          let k = answered_lem q (result x) e h p live in
          let e' : Env = record (answered q (result x) e) { held = x ∷ e.held } in
          let z =
            sized x (vm.answer e'.calls (get_string_length (some s))) e' refl
              (record { held = k.held; fresh = k.fresh; faulted = k.faulted }) p refl in
          (z.0, refl, inr (x, refl, z.1, z.2, some_not_none s, refl))

  -- What the destructor does to an environment with the same characters held.
  abbrev pub IsDestroyed : List ℕ → Env → Env → Type 0
  IsDestroyed held e' d = IsAt l n f d × (d.held ≡ held) × (d.pending ≡ e'.pending)

  released_held :
      (s : Option Ref) (x : ℕ) (held : List ℕ) (e' : Env)
      → IsAt l n f e'
      → target_live s l ≡ true
      → e'.held ≡ x ∷ held
      → IsDestroyed held e' ((release_string_chars s x e').1)
  unfolding release_string_chars
  released_held s x held e' h live g =
      let own = (==_iff x x).1 refl in
      (
        record {
          held = h.held;
          fresh = h.fresh;
          faulted =
              ap (λ z. e'.faults + fault none z)
                (and_intro _ _ (ap (is_live x) g ∙ is_live_first x held)
                  (ap (target_live s) h.held ∙ live))
              ∙ (let k = h.faulted in omega (arith, k));
        },
        ap (remove x) g ∙ if_true _ _ _ own,
        refl,
      )

  target_of : (s : Option Ref) → s ≢ none → ref_live s l ≡ true → target_live s l ≡ true
  target_of none g h = absurd (g refl)
  target_of (some r) g h = h

  destroy_lem :
      (s : Option Ref) (e : Env) (r : StringChars × Env)
      → IsConstructed vm l n f s e r
      → ref_live s l ≡ true
      → (e' : Env) → IsAt l n f e'
      → e'.held ≡ r.1.held
      → IsDestroyed e.held e' ((destroy r.0 e').1)
  unfolding destroy
  destroy_lem s e (h, e1) k live e' i g = elim k.2 [
    | inl q ↦
        subst (λ z. IsDestroyed e.held e' ((release_held h.string z e').1)) (sym q.0)
          (i, g ∙ q.2, refl)
    | inr q ↦
        subst (λ z. IsDestroyed e.held e' ((release_held h.string z e').1)) (sym q.1)
          (subst (λ z. IsDestroyed e.held e' ((release_string_chars z q.0 e').1)) (sym k.1)
            (released_held s q.0 e.held e' i (target_of s q.4 live) (g ∙ q.2)))
  ]

  -- A holder of the characters of a live string or of NULL, with no exception pending, NULL answers
  -- that come with an exception and GetStringLength that raises none: it has no characters, size 0
  -- and an exception pending, or it has characters of a string that is not NULL, holds just these in
  -- addition, and its size is the length that GetStringLength gave; the destructor, whatever is
  -- pending, releases exactly what it holds; no call is one that the JNI specification forbids, and
  -- no local reference is left.
  pub construct-destroy :
      (s : Option Ref) (e : Env)
      → IsAt l n f e
      → IsCalm e
      → ref_live s l ≡ true
      → (e' : Env) → IsAt l n f e'
      → e'.held ≡ (construct vm s e).1.held
      → IsConstructed vm l n f s e (construct vm s e)
        × IsDestroyed e.held e' ((destroy (construct vm s e).0 e').1)
  construct-destroy s e h p live e' i g =
      let k = construct_lem s e h p live in (k, destroy_lem s e (construct vm s e) k live e' i g)
