-- ===== src/Jni/Binds.antt =====
-- What follows a call of a JNI environment, for each of its ends.
use platform_libnativehelper.Jni.{
  Action, Env, Vm, Ref, JniCall, call_live, perform_local, perform, result, null_result, Answer,
  value_of, referred, answered, raised, is_live,
}
use platform_libnativehelper.Base.{
  ℕ, suc, ◌≤◌, ◌≡◌, refl, ◌≢◌, true, Option, none, some, List, ◌∷◌, ap, subst, sym,
}
use platform_libnativehelper.Jni.Found.{IsValued, IsRead, IsGiven, IsFound}
use platform_libnativehelper.Jni.Rules.{IsReferred, IsAt, IsCalm, referred_lem, answered_lem}

-- What follows a call is shown for each of its ends.
module _ {B : Type 0} (Q : B × Env → Type 0) (l : List ℕ) (n f : ℕ) where
  pub given_bind :
      (k : Option Ref → Action B) (r : Option Ref × Env)
      → IsGiven l n f r
      → ((c : Ref) (e : Env)
          → n ≤ c.handle
          → IsAt (c.handle ∷ l) (suc c.handle) f e
          → IsCalm e
          → Q (k (some c) e))
      → Q (k r.0 r.1)
  given_bind k (none, e) h g = absurd h
  given_bind k (some c, e) h g = g c e h.0 h.1 h.2

  pub valued_bind :
      (k : Option ℕ → Action B) (r : Option ℕ × Env)
      → IsValued l n f r
      → ((m : ℕ) (e : Env) → IsAt l n f e → IsCalm e → Q (k (some m) e))
      → Q (k r.0 r.1)
  valued_bind k (none, e) h g = absurd h
  valued_bind k (some m, e) h g = g m e h.0 h.1

  pub referred_bind :
      (k : Option Ref → Action B) (r : Option Ref × Env)
      → IsReferred l n f r
      → ((c : Ref) (e : Env)
          → n ≤ c.handle
          → IsAt (c.handle ∷ l) (suc c.handle) f e
          → IsCalm e
          → Q (k (some c) e))
      → ((e : Env) → IsAt l n f e → r.1 ≡ e → Q (k none e))
      → Q (k r.0 r.1)
  referred_bind k (none, e) h g g' = g' e h refl
  referred_bind k (some c, e) h g g' = g c e h.0 h.1 h.2

  pub read_bind :
      (k : Option ℕ → Action B) (r : Option ℕ × Env)
      → IsRead l n f r
      → ((t : ℕ) (e : Env) → is_live t e.held ≡ true → IsAt l n f e → IsCalm e → Q (k (some t) e))
      → ((e : Env) → IsAt l n f e → Q (k none e))
      → Q (k r.0 r.1)
  read_bind k (none, e) h g g' = g' e h
  read_bind k (some t, e) h g g' = g t e h.2 h.0 h.1

-- What follows a call is shown for each answer that the call may get.
module _ {B : Type 0} (Q : B × Env → Type 0) (l : List ℕ) (n f : ℕ) (vm : Vm) (c : JniCall)
    (e : Env) (h : IsAt l n f e) (p : IsCalm e) (q : call_live c l ≡ true) where
  pub local_bind :
      (k : Option Ref → Action B)
      → ((r : Ref) (e' : Env)
          → vm.answer e.calls c ≡ result r.object
          → n ≤ r.handle
          → IsAt (r.handle ∷ l) (suc r.handle) f e'
          → IsCalm e'
          → Q (k (some r) e'))
      → vm.answer e.calls c ≢ null_result
      → ((x : ℕ) (e' : Env) → IsAt l n f e' → e'.pending ≡ some x → Q (k none e'))
      → Q (k (perform_local vm c e).0 (perform_local vm c e).1)
  unfolding perform_local
  local_bind k g o g' = from (vm.answer e.calls c) refl
    where
      from : (y : Answer) → vm.answer e.calls c ≡ y → Q (k (referred c y e).0 (referred c y e).1)
      from null_result w = absurd (o w)
      from (result x) w = let r = referred_lem c (result x) e h p q in g _ _ w r.0 r.1 r.2
      from (raised x) w = g' x _ (answered_lem c (raised x) e h p q) refl

  pub value_bind :
      (k : Option ℕ → Action B)
      → ((m : ℕ) (e' : Env)
          → vm.answer e.calls c ≡ result m
          → IsAt l n f e'
          → IsCalm e'
          → Q (k (some m) e'))
      → vm.answer e.calls c ≢ null_result
      → ((x : ℕ) (e' : Env) → IsAt l n f e' → e'.pending ≡ some x → Q (k none e'))
      → Q (k (perform vm c e).0 (perform vm c e).1)
  unfolding perform
  value_bind k g o g' = from (vm.answer e.calls c) refl
    where
      from : (y : Answer) → vm.answer e.calls c ≡ y → Q (k (value_of y) (answered c y e))
      from null_result w = absurd (o w)
      from (result x) w = g x _ w (answered_lem c (result x) e h p q) p
      from (raised x) w = g' x _ (answered_lem c (raised x) e h p q) refl

  -- After a call that always has a result.
  pub found_bind :
      (k : Option Ref → Action B)
      → IsFound vm c
      → ((r : Ref) (e' : Env)
          → vm.answer e.calls c ≡ result r.object
          → n ≤ r.handle
          → IsAt (r.handle ∷ l) (suc r.handle) f e'
          → IsCalm e'
          → Q (k (some r) e'))
      → Q (k (perform_local vm c e).0 (perform_local vm c e).1)
  unfolding perform_local
  found_bind k found g =
      let x = found e.calls in
      let r = referred_lem c (result x.0) e h p q in
      subst (λ a. Q (k (referred c a e).0 (referred c a e).1)) (sym x.1) (g _ _ x.1 r.0 r.1 r.2)

  pub found_value_bind :
      (k : Option ℕ → Action B)
      → IsFound vm c
      → ((m : ℕ) (e' : Env)
          → vm.answer e.calls c ≡ result m
          → IsAt l n f e'
          → IsCalm e'
          → Q (k (some m) e'))
      → Q (k (perform vm c e).0 (perform vm c e).1)
  unfolding perform
  found_value_bind k found g =
      let x = found e.calls in
      subst (λ a. Q (k (value_of a) (answered c a e))) (sym x.1)
        (g x.0 _ x.1 (answered_lem c (result x.0) e h p q) p)

  -- After a call for an object: a new reference, or none.
  pub object_bind :
      (k : Option Ref → Action B)
      → ((r : Ref) (e' : Env)
          → vm.answer e.calls c ≡ result r.object
          → n ≤ r.handle
          → IsAt (r.handle ∷ l) (suc r.handle) f e'
          → IsCalm e'
          → Q (k (some r) e'))
      → ((e' : Env)
          → value_of (vm.answer e.calls c) ≡ none
          → IsAt l n f e'
          → (perform_local vm c e).1 ≡ e'
          → Q (k none e'))
      → Q (k (perform_local vm c e).0 (perform_local vm c e).1)
  unfolding perform_local
  object_bind k g g' = from (vm.answer e.calls c) refl
    where
      from : (y : Answer) → vm.answer e.calls c ≡ y → Q (k (referred c y e).0 (referred c y e).1)
      from null_result w =
          g' _ (ap value_of w) (answered_lem c null_result e h p q) (ap (λ y. (referred c y e).1) w)
      from (result x) w = let r = referred_lem c (result x) e h p q in g _ _ w r.0 r.1 r.2
      from (raised x) w =
          g' _ (ap value_of w) (answered_lem c (raised x) e h p q) (ap (λ y. (referred c y e).1) w)
