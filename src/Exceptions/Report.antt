-- ===== src/Exceptions/Report.antt =====
-- JNIHelp.c: logging an exception and its stack trace.
use platform_libnativehelper.Jni.{
  ◌>>=◌, ◌>>◌, pure, Action, Env, throw_ref, Vm, JniCall, Ref, throw, null_result, is_live, Answer,
  thrown, exception_occurred,
}
use platform_libnativehelper.Base.{
  ℕ, ◌≡◌, refl, sym, ◌∙◌, subst, Bool, true, false, Option, none, some, List, ◌∷◌, arith,
}
use platform_libnativehelper.Text.{Allocator}
use platform_libnativehelper.Exceptions.Calls.{IsCore, IsQuiet}
use platform_libnativehelper.Exceptions.Trace.{IsPrinting, IsTraced, get_stack_trace_lem}
use platform_libnativehelper.Text.Abstract.{Chars}
use platform_libnativehelper.Exceptions.{
  throw_again, chosen, get_stack_trace_or_summary, or_summary, get_stack_trace, clear_pending,
  trace_or_summary, assign, append,
}
use platform_libnativehelper.Exceptions.Summary.{get_exception_summary_lem, IsSummarized-IsCalm}
use platform_libnativehelper.Exceptions.Throwing.{jni_log_exception}
use platform_libnativehelper.Jni.Rules.{
  exception_clear_lem, IsAt, write_log_lem, IsCalm, is_live_first, IsAt-weaken, delete_first_lem,
  is_live_later,
}
use platform_libnativehelper.Jni.Found.{IsOccurred, thrown_lem, exception_occurred_lem}

-- Throw never fails.
abbrev pub IsThrowing : Vm → Type 0
IsThrowing vm = (calls : List JniCall) (r : Ref) → vm.answer calls (throw (some r)) ≡ null_result

-- What a step comes to that keeps the references and the pending exception.
abbrev pub IsKept : {B : Type 0} → List ℕ → ℕ → ℕ → Option ℕ → B × Env → Type 0
IsKept l n f p r = IsAt l n f r.1 × (r.1.pending ≡ p)

-- Throwing an exception, when Throw never fails.
pub throw_ref_done :
    (vm : Vm) (l : List ℕ) (n f : ℕ) (r : Ref) (e : Env)
    → IsThrowing vm
    → IsAt l n f e
    → IsCalm e
    → is_live r.handle l ≡ true
    → (throw_ref vm (some r) e ≡ (true, (throw_ref vm (some r) e).1))
      × IsAt l n f ((throw_ref vm (some r) e).1)
      × ((throw_ref vm (some r) e).1.pending ≡ some r.object)
unfolding throw_ref
throw_ref_done vm l n f r e g h p live =
    let t = thrown_lem r null_result e h p live in
    subst
      (λ (x : Answer).
        (thrown (some r) x e ≡ (true, (thrown (some r) x e).1))
        × IsAt l n f ((thrown (some r) x e).1)
        × ((thrown (some r) x e).1.pending ≡ some r.object))
      (sym (g e.calls r)) (refl, t.0, t.1)

-- The stack trace, or the summary.
abbrev shown : Vm → Allocator → Ref → Chars → Action Chars
shown vm a t dst = get_stack_trace vm a (some t) dst >>= λ r. or_summary vm a (some t) r

module _ (vm : Vm) (a : Allocator) (core : IsCore vm) (print : IsPrinting vm) (quiet : IsQuiet vm)
    (throwing : IsThrowing vm) where
  or_summary_lem :
      (l : List ℕ) (n f : ℕ) (dst : Chars) (t : Ref) (r : (Bool × Chars) × Env)
      → is_live t.handle l ≡ true
      → IsTraced vm l n f dst r
      → IsKept l n f none (or_summary vm a (some t) r.0 r.1)
  unfolding or_summary
  or_summary_lem l n f dst t ((true, d), e) live h = (h.0, (h.1 refl).0)
  or_summary_lem l n f dst t ((false, d), e) live h =
      let c = exception_clear_lem e h.0 in
      let s = (get_exception_summary_lem vm a core l n f d t _ c.0 c.1 live).0 in
      (s.at, IsSummarized-IsCalm quiet s)

  traced_or_summary :
      (l : List ℕ) (n f : ℕ) (dst : Chars) (t : Ref) (e : Env)
      → IsAt l n f e
      → IsCalm e
      → is_live t.handle l ≡ true
      → IsKept l n f none (shown vm a t dst e)
  traced_or_summary l n f dst t e h p live =
      or_summary_lem l n f dst t (get_stack_trace vm a (some t) dst e) live
        (get_stack_trace_lem vm a core print l n f dst t live e h p)

  throw_again_lem :
      (l : List ℕ) (n f : ℕ) (p : Ref) (text : Chars) (e : Env)
      → IsAt (p.handle ∷ l) n f e
      → IsCalm e
      → IsKept l n f (some p.object) ((throw_again vm a (some p) >> pure text) e)
  unfolding throw_again
  throw_again_lem l n f p text e h c =
      let t = throw_ref_done vm (p.handle ∷ l) n f p e throwing h c (is_live_first p.handle l) in
      let d = delete_first_lem p _ t.1 in (d.0, d.1 ∙ t.2)

  nothing_pending :
      (l : List ℕ) (n f : ℕ) (t : Option Ref) (dst : Chars) (e : Env)
      → IsAt l n f e
      → IsCalm e
      → ((r : Ref) → t ≡ some r → is_live r.handle l ≡ true)
      → IsKept l n f none (chosen vm a none t dst e)
  unfolding chosen trace_or_summary throw_again assign append
  nothing_pending l n f none dst e h p live =
      (record { held = h.held; fresh = h.fresh; faulted = h.faulted }, p)
  nothing_pending l n f (some t) dst e h p live = traced_or_summary l n f dst t e h p (live t refl)

  something_pending :
      (l : List ℕ) (n f : ℕ) (x : Ref) (t : Option Ref) (dst : Chars) (e : Env)
      → IsAt (x.handle ∷ l) n f e
      → IsCalm e
      → ((r : Ref) → t ≡ some r → is_live r.handle l ≡ true)
      → IsKept l n f (some x.object) (chosen vm a (some x) t dst e)
  unfolding chosen trace_or_summary
  something_pending l n f x none dst e h p live =
      let k = traced_or_summary (x.handle ∷ l) n f dst x e h p (is_live_first x.handle l) in
      throw_again_lem l n f x (shown vm a x dst e).0 _ k.0 k.1
  something_pending l n f x (some t) dst e h p live =
      let k =
        traced_or_summary (x.handle ∷ l) n f dst t e h p
          (is_live_later t.handle x.handle l (live t refl)) in
      throw_again_lem l n f x (shown vm a t dst e).0 _ k.0 k.1

  pub get_stack_trace_or_summary_lem :
      (l : List ℕ) (n f : ℕ) (t : Option Ref) (dst : Chars) (e : Env)
      → IsAt l n f e
      → ((r : Ref) → t ≡ some r → is_live r.handle l ≡ true)
      → IsKept l n f e.pending (get_stack_trace_or_summary vm a t dst e)
  unfolding get_stack_trace_or_summary clear_pending
  get_stack_trace_or_summary_lem l n f t dst e h live =
      from_pending (exception_occurred e) (exception_occurred_lem e h)
    where
      from_pending :
          (r : Option Ref × Env)
          → IsOccurred l n f e.pending r
          → IsKept l n f e.pending ((clear_pending vm a r.0 >> chosen vm a r.0 t dst) r.1)
      from_pending (none, e') h =
          let k = nothing_pending l n f t dst e' h.0 h.2 live in (k.0, k.1 ∙ sym h.1)
      from_pending (some x, e') h =
          let o = h.0 in
          let c = exception_clear_lem e' (IsAt-weaken n (omega (arith, o)) h.1) in
          let k = something_pending l n f x t dst _ c.0 c.1 live in (k.0, k.1 ∙ sym h.2)

  -- jniLogException of NULL or a live exception, when the classes and methods of the core library
  -- that the code names are found, no method called for an object raises and Throw does not fail:
  -- the local references and the pending exception afterwards are those of before, whatever was
  -- pending and whether allocations and conversions fail or not, and no call was one that the JNI
  -- specification forbids.
  pub jni_log_exception_lem :
      (priority : ℕ) (tag : List ℕ) (l : List ℕ) (n f : ℕ) (t : Option Ref) (e : Env)
      → IsAt l n f e
      → ((r : Ref) → t ≡ some r → is_live r.handle l ≡ true)
      → IsKept l n f e.pending (jni_log_exception vm a priority tag t e)
  unfolding jni_log_exception
  jni_log_exception_lem priority tag l n f t e h live =
      let k = get_stack_trace_or_summary_lem l n f t none e h live in
      let w = write_log_lem _ _ k.0 in (w.0, w.1 ∙ k.1)
