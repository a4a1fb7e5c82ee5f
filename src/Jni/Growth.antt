-- ===== src/Jni/Growth.antt =====
-- A call that the specification does not allow stays counted: no step takes a fault back. And most
-- steps neither hold nor release the characters of a string.
use platform_libnativehelper.Jni.{
  ◌>>=◌, pure, Action, Env, exception_clear, Ref, write_log, delete_local_ref, string_utf_chars,
  perform, JniCall, exception_occurred, perform_local, throw_ref, Vm, Answer, LogEntry, occurred,
  thrown, referred, answered, result, throw, raised, null_result, get_string_utf_chars, call_live,
  fault, remove, with_held, value_of,
}
use platform_libnativehelper.Base.{
  refl, ℕ, suc, ◌+◌, ◌≤◌, ◌≡◌, sym, subst, Option, none, some, arith, List, ◌∙◌, ◌∷◌, if_true, ◌==◌,
  ==_iff,
}

pub record IsGrowing {A : Type 0} (m : Action A) : Type 0 where
  pub grows : (e : Env) → e.faults ≤ (m e).1.faults
  pub keeps : (e : Env) → (m e).1.held ≡ e.held

pub pure_grows : {A : Type 0} (x : A) → IsGrowing (pure x)
pure_grows x = record { grows = λ e. omega arith; keeps = λ e. refl }

pub bind_grows :
    {A B : Type 0} {m : Action A} {k : A → Action B}
    → IsGrowing m
    → ((x : A) → IsGrowing (k x))
    → IsGrowing (m >>= k)
bind_grows {m = m} g h = record {
  grows = λ e. let p = g.grows e in let q = (h (m e).0).grows (m e).1 in omega (arith, p, q);
  keeps = λ e. (h (m e).0).keeps (m e).1 ∙ g.keeps e;
}

answered_grows : (c : JniCall) (x : Answer) (e : Env) → e.faults ≤ (answered c x e).faults
answered_grows c null_result e = omega arith
answered_grows c (result x) e = omega arith
answered_grows c (raised x) e = omega arith

answered_keeps : (c : JniCall) (x : Answer) (e : Env) → (answered c x e).held ≡ e.held
answered_keeps c null_result e = refl
answered_keeps c (result x) e = refl
answered_keeps c (raised x) e = refl

referred_keeps : (c : JniCall) (x : Answer) (e : Env) → (referred c x e).1.held ≡ e.held
referred_keeps c null_result e = refl
referred_keeps c (result x) e = refl
referred_keeps c (raised x) e = refl

thrown_keeps : (r : Option Ref) (x : Answer) (e : Env) → (thrown r x e).1.held ≡ e.held
thrown_keeps (some r) null_result e = refl
thrown_keeps none null_result e = refl
thrown_keeps r (result x) e = refl
thrown_keeps r (raised x) e = refl

referred_grows : (c : JniCall) (x : Answer) (e : Env) → e.faults ≤ (referred c x e).1.faults
referred_grows c null_result e = answered_grows c null_result e
referred_grows c (result x) e = answered_grows c (result x) e
referred_grows c (raised x) e = answered_grows c (raised x) e

thrown_grows : (r : Option Ref) (x : Answer) (e : Env) → e.faults ≤ (thrown r x e).1.faults
thrown_grows (some r) null_result e = answered_grows (throw (some r)) null_result e
thrown_grows none null_result e = answered_grows (throw none) null_result e
thrown_grows r (result x) e = answered_grows (throw r) (result x) e
thrown_grows r (raised x) e = answered_grows (throw r) (raised x) e

pub perform_grows : (vm : Vm) (c : JniCall) → IsGrowing (perform vm c)
unfolding perform
perform_grows vm c = record {
  grows = λ e. answered_grows c (vm.answer e.calls c) e;
  keeps = λ e. answered_keeps c (vm.answer e.calls c) e;
}

pub perform_local_grows : (vm : Vm) (c : JniCall) → IsGrowing (perform_local vm c)
unfolding perform_local
perform_local_grows vm c = record {
  grows = λ e. referred_grows c (vm.answer e.calls c) e;
  keeps = λ e. referred_keeps c (vm.answer e.calls c) e;
}

pub throw_ref_grows : (vm : Vm) (r : Option Ref) → IsGrowing (throw_ref vm r)
unfolding throw_ref
throw_ref_grows vm r = record {
  grows = λ e. thrown_grows r (vm.answer e.calls _) e;
  keeps = λ e. thrown_keeps r (vm.answer e.calls _) e;
}

pub exception_clear_grows : IsGrowing exception_clear
unfolding exception_clear
exception_clear_grows = record { grows = λ e. omega arith; keeps = λ e. refl }

occurred_grows : (x : Option ℕ) (e : Env) → e.faults ≤ (occurred x e).1.faults
occurred_grows none e = omega arith
occurred_grows (some x) e = omega arith

occurred_keeps : (x : Option ℕ) (e : Env) → (occurred x e).1.held ≡ e.held
occurred_keeps none e = refl
occurred_keeps (some x) e = refl

pub exception_occurred_grows : IsGrowing exception_occurred
unfolding exception_occurred
exception_occurred_grows = record {
  grows = λ e. occurred_grows e.pending e;
  keeps = λ e. occurred_keeps e.pending e;
}

pub delete_local_ref_grows : (r : Option Ref) → IsGrowing (delete_local_ref r)
unfolding delete_local_ref
delete_local_ref_grows none = record { grows = λ e. omega arith; keeps = λ e. refl }
delete_local_ref_grows (some r) = record { grows = λ e. omega arith; keeps = λ e. refl }

pub write_log_grows : (entry : LogEntry) → IsGrowing (write_log entry)
unfolding write_log
write_log_grows entry = record { grows = λ e. omega arith; keeps = λ e. refl }

pub remove_first : (x : ℕ) (xs : List ℕ) → remove x (x ∷ xs) ≡ xs
remove_first x xs = if_true (x == x) xs (x ∷ remove x xs) ((==_iff x x).1 refl)

-- A step for the characters, or one for NULL.
abbrev pub read_or : {B : Type 0} → (ℕ → Action B) → Action B → Option ℕ → Action B
read_or k z none = z
read_or k z (some x) = k x

-- Characters that are read are released, whatever step is taken between.
pub utf_chars_grows :
    {B : Type 0} (vm : Vm) (s : Option Ref) (k : ℕ → Action B) (none_step : Action B)
    → ((x : ℕ) (e : Env) → e.faults ≤ (k x e).1.faults)
    → ((x : ℕ) (e : Env) (xs : List ℕ) → e.held ≡ x ∷ xs → (k x e).1.held ≡ xs)
    → IsGrowing none_step
    → IsGrowing (string_utf_chars vm s >>= λ o. read_or k none_step o)
unfolding string_utf_chars
utf_chars_grows vm s k z g w i = record {
  grows = λ e. from e (vm.answer e.calls _);
  keeps = λ e. same e (vm.answer e.calls _);
}
  where
    from :
        (e : Env) (y : Answer)
        → e.faults
          ≤ ((λ (r : Option ℕ × Env). read_or k z r.0 r.1)
              (with_held (value_of y, answered (get_string_utf_chars s) y e))).1.faults
    from e null_result =
        let p = i.grows (answered (get_string_utf_chars s) null_result e) in omega (arith, p)
    from e (raised x) =
        let p = i.grows (answered (get_string_utf_chars s) (raised x) e) in omega (arith, p)
    from e (result x) =
        let p = g x (with_held (some x, answered (get_string_utf_chars s) (result x) e)).1 in
        omega (arith, p)

    same :
        (e : Env) (y : Answer)
        → ((λ (r : Option ℕ × Env). read_or k z r.0 r.1)
            (with_held (value_of y, answered (get_string_utf_chars s) y e))).1.held
          ≡ e.held
    same e null_result = i.keeps _
    same e (raised x) = i.keeps _
    same e (result x) = w x _ e.held refl

-- The steps that never take a fault back, for `search`.
pub ruleset growing = (
  bind_grows, pure_grows, perform_grows, perform_local_grows, throw_ref_grows,
  exception_clear_grows, exception_occurred_grows, delete_local_ref_grows, write_log_grows,
)

-- A call with an exception pending is a fault.
pending_faults :
    (c : JniCall) (x : ℕ) (a : Answer) (e : Env)
    → e.pending ≡ some x
    → suc e.faults ≤ (referred c a e).1.faults
pending_faults c x null_result e p =
    subst (λ z. suc e.faults ≤ e.faults + fault z (call_live c e.locals)) (sym p) (omega arith)
pending_faults c x (result y) e p =
    subst (λ z. suc e.faults ≤ e.faults + fault z (call_live c e.locals)) (sym p) (omega arith)
pending_faults c x (raised y) e p =
    subst (λ z. suc e.faults ≤ e.faults + fault z (call_live c e.locals)) (sym p) (omega arith)

pub perform_local_faults :
    (vm : Vm) (c : JniCall) (x : ℕ) (e : Env)
    → e.pending ≡ some x
    → suc e.faults ≤ (perform_local vm c e).1.faults
unfolding perform_local
perform_local_faults vm c x e p = pending_faults c x (vm.answer e.calls c) e p
