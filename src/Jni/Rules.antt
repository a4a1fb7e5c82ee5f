-- ===== src/Jni/Rules.antt =====
-- The rules of a JNI environment: what each call does to the local references, to the count of faults
-- and to the pending exception.
use platform_libnativehelper.Base.{
  if_true, if_false, ℕ, suc, ◌+◌, ◌≤◌, ◌<◌, ◌≡◌, refl, ap, ◌∙◌, Bool, true, false, ◌||◌, Option,
  none, some, List, ◌∷◌, arith, ◌==◌, ==_iff,
}
use platform_libnativehelper.Jni.{
  write_log, delete_local_ref, perform, Ref, JniCall, Env, perform_local, is_live, exception_clear,
  remove, Vm, LogEntry, Answer, call_live, answered, value_of, fault, referred, raised, result,
  null_result,
}

-- The live local references are these, the handles from this number on are new, and this many calls
-- were not allowed.
pub record IsAt (l : List ℕ) (n f : ℕ) (e : Env) : Type 0 where
  pub held : e.locals ≡ l
  pub fresh : n ≤ e.next
  pub faulted : e.faults ≡ f

abbrev pub IsCalm : Env → Type 0
IsCalm e = e.pending ≡ none

-- A later bound for the new handles.
pub IsAt-weaken : {l : List ℕ} {n f : ℕ} {e : Env} (m : ℕ) → m ≤ n → IsAt l n f e → IsAt l m f e
IsAt-weaken m h a =
    let q = a.fresh in record { held = a.held; fresh = omega (arith, h, q); faulted = a.faulted }

-- After a call for an object: a new reference, and no exception; or none.
abbrev pub IsReferred : List ℕ → ℕ → ℕ → Option Ref × Env → Type 0
IsReferred l n f (none, e) = IsAt l n f e
IsReferred l n f (some r, e) = (n ≤ r.handle) × IsAt (r.handle ∷ l) (suc r.handle) f e × IsCalm e

-- After a call for an identifier.
abbrev pub IsAnswered : List ℕ → ℕ → ℕ → Option ℕ × Env → Type 0
IsAnswered l n f (none, e) = IsAt l n f e
IsAnswered l n f (some x, e) = IsAt l n f e × IsCalm e

module _ {l : List ℕ} {n f : ℕ} where
  pub no_fault :
      (e : Env) (c : JniCall)
      → IsAt l n f e
      → IsCalm e
      → call_live c l ≡ true
      → e.faults + fault e.pending (call_live c e.locals) ≡ f
  no_fault e c h p q =
      ap (λ x. e.faults + fault x (call_live c e.locals)) p
      ∙ ap (λ x. e.faults + fault none (call_live c x)) h.held
      ∙ ap (λ x. e.faults + fault none x) q
      ∙ (let g = h.faulted in omega (arith, g))

  pub referred_lem :
      (c : JniCall) (x : Answer) (e : Env)
      → IsAt l n f e
      → IsCalm e
      → call_live c l ≡ true
      → IsReferred l n f (referred c x e)
  referred_lem c null_result e h p q = record {
    held = h.held;
    fresh = h.fresh;
    faulted = no_fault e c h p q;
  }
  referred_lem c (raised x) e h p q = record {
    held = h.held;
    fresh = h.fresh;
    faulted = no_fault e c h p q;
  }
  referred_lem c (result x) e h p q = (
    h.fresh,
    record {
      held = ap (λ z. e.next ∷ z) h.held;
      fresh = omega arith;
      faulted = no_fault e c h p q;
    },
    p,
  )

  pub perform_local_lem :
      (vm : Vm) (c : JniCall) (e : Env)
      → IsAt l n f e
      → IsCalm e
      → call_live c l ≡ true
      → IsReferred l n f (perform_local vm c e)
  unfolding perform_local
  perform_local_lem vm c e h p q = referred_lem c (vm.answer e.calls c) e h p q

  pub answered_lem :
      (c : JniCall) (x : Answer) (e : Env)
      → IsAt l n f e
      → IsCalm e
      → call_live c l ≡ true
      → IsAt l n f (answered c x e)
  answered_lem c null_result e h p q = record {
    held = h.held;
    fresh = h.fresh;
    faulted = no_fault e c h p q;
  }
  answered_lem c (raised x) e h p q = record {
    held = h.held;
    fresh = h.fresh;
    faulted = no_fault e c h p q;
  }
  answered_lem c (result x) e h p q = record {
    held = h.held;
    fresh = h.fresh;
    faulted = no_fault e c h p q;
  }

  value_lem :
      (c : JniCall) (x : Answer) (e : Env)
      → IsAt l n f e
      → IsCalm e
      → call_live c l ≡ true
      → IsAnswered l n f (value_of x, answered c x e)
  value_lem c null_result e h p q = answered_lem c null_result e h p q
  value_lem c (raised x) e h p q = answered_lem c (raised x) e h p q
  value_lem c (result x) e h p q = (answered_lem c (result x) e h p q, p)

  pub perform_lem :
      (vm : Vm) (c : JniCall) (e : Env)
      → IsAt l n f e
      → IsCalm e
      → call_live c l ≡ true
      → IsAnswered l n f (perform vm c e)
  unfolding perform
  perform_lem vm c e h p q = value_lem c (vm.answer e.calls c) e h p q

  pub exception_clear_lem :
      (e : Env) → IsAt l n f e → IsAt l n f ((exception_clear e).1) × IsCalm ((exception_clear e).1)
  unfolding exception_clear
  exception_clear_lem e h = (record { held = h.held; fresh = h.fresh; faulted = h.faulted }, refl)

  pub write_log_lem :
      (entry : LogEntry) (e : Env)
      → IsAt l n f e
      → IsAt l n f ((write_log entry e).1) × ((write_log entry e).1.pending ≡ e.pending)
  unfolding write_log
  write_log_lem entry e h = (record { held = h.held; fresh = h.fresh; faulted = h.faulted }, refl)

-- Of two references the older is deleted, or the one deleted is the last.
module _ {l : List ℕ} {n f : ℕ} where
  delete_lem :
      (r : Ref) (m : List ℕ) (e : Env)
      → IsAt m n f e
      → is_live r.handle m ≡ true
      → remove r.handle m ≡ l
      → IsAt l n f ((delete_local_ref (some r) e).1)
        × ((delete_local_ref (some r) e).1.pending ≡ e.pending)
  unfolding delete_local_ref
  delete_lem r m e h q d = (
    record {
      held = ap (remove r.handle) h.held ∙ d;
      fresh = h.fresh;
      faulted =
          ap (λ x. e.faults + fault none (is_live r.handle x)) h.held
          ∙ ap (λ x. e.faults + fault none x) q
          ∙ (let g = h.faulted in omega (arith, g));
    },
    refl,
  )

  pub delete_first_lem :
      (r : Ref) (e : Env)
      → IsAt (r.handle ∷ l) n f e
      → IsAt l n f ((delete_local_ref (some r) e).1)
        × ((delete_local_ref (some r) e).1.pending ≡ e.pending)
  delete_first_lem r e h =
      let s = (==_iff r.handle r.handle).1 refl in
      delete_lem r (r.handle ∷ l) e h (ap (λ b. b || is_live r.handle l) s) (if_true _ _ _ s)

module _ {l : List ℕ} {n f : ℕ} where
  pub delete_second_lem :
      (r : Ref) (m : ℕ) (e : Env)
      → r.handle < m
      → IsAt (m ∷ (r.handle ∷ l)) n f e
      → IsAt (m ∷ l) n f ((delete_local_ref (some r) e).1)
        × ((delete_local_ref (some r) e).1.pending ≡ e.pending)
  delete_second_lem r m e o h =
      let s = (==_iff r.handle r.handle).1 refl in
      let d : (r.handle == m) ≡ false = ground (arith, o) in
      delete_lem r (m ∷ (r.handle ∷ l)) e h
        (ap (λ b. b || ((r.handle == r.handle) || is_live r.handle l)) d
          ∙ ap (λ b. b || is_live r.handle l) s)
        (if_false _ _ _ d ∙ ap (λ z. m ∷ z) (if_true _ _ _ s))

-- A reference stays live under newer ones.
pub is_live_first : (h : ℕ) (l : List ℕ) → is_live h (h ∷ l) ≡ true
is_live_first h l = ap (λ b. b || is_live h l) ((==_iff h h).1 refl)

pub is_live_later : (h x : ℕ) (l : List ℕ) → is_live h l ≡ true → is_live h (x ∷ l) ≡ true
is_live_later h x l q = either (h == x) (is_live h l) q
  where
    either : (a b : Bool) → b ≡ true → (a || b) ≡ true
    either true b e = refl
    either false b e = e
