-- ===== src/Exceptions/Thrown.antt =====
-- JNIHelp.c: what throwing an exception comes to.
use platform_libnativehelper.Jni.{
  ◌>>=◌, ◌>>◌, pure, Action, Vm, Arg, args_live, JniCall, Env, Ref, find_class, int_arg, ref_arg,
  null_result, result, minus_one, get_method_id, new_object, write_log, throw, exception_clear,
  exception_occurred, delete_local_ref, LogEntry, throw_ref, Answer, thrown, raised, not_thrown,
  class_not_found, not_constructed, constructor_not_found,
}
use platform_libnativehelper.Base.{
  ℕ, suc, ◌≤◌, ◌<◌, ◌≡◌, refl, ◌∙◌, ◌≢◌, true, Option, none, some, List, [], ◌∷◌, arith, and_left,
  and_right, and_intro, codes,
}
use platform_libnativehelper.Text.{Allocator}
use platform_libnativehelper.Exceptions.Calls.{IsCore, IsQuiet}
use platform_libnativehelper.Exceptions.Throwing.{
  discard_pending_exception, discard_occurred, throw_done, throw_exception, throw_of_class,
  construct_and_throw, throw_instance,
}
use platform_libnativehelper.Exceptions.Summary.{get_exception_summary_lem, IsSummarized-IsCalm}
use platform_libnativehelper.Jni.Rules.{
  IsAt, is_live_later, write_log_lem, IsCalm, delete_first_lem, exception_clear_lem, IsAt-weaken,
  is_live_first, delete_second_lem,
}
use platform_libnativehelper.Jni.Binds.{local_bind, value_bind}
use platform_libnativehelper.Jni.Found.{thrown_lem, IsOccurred, exception_occurred_lem}
use platform_libnativehelper.Exceptions.Growth.{throw_exception_grows}

-- A call that gives NULL, or a Throw that fails, leaves an exception pending.
pub record IsRaising (vm : Vm) : Type 0 where
  pub class :
      (calls : List JniCall) (name : List ℕ) → vm.answer calls (find_class name) ≢ null_result
  pub method :
      (calls : List JniCall) (c : Option Ref) (name signature : List ℕ)
      → vm.answer calls (get_method_id c name signature) ≢ null_result
  pub object :
      (calls : List JniCall) (c : Option Ref) (m : Option ℕ) (args : List Arg)
      → vm.answer calls (new_object c m args) ≢ null_result
  pub throw : (calls : List JniCall) (r : Option Ref) (n : ℕ) → vm.answer calls (throw r) ≢ result n

-- The object was constructed from these arguments, by the constructor of this signature that was
-- looked up in the class of this name.
pub record IsInstance (vm : Vm) (class_name ctor_sig : List ℕ) (args : List Arg) (x : ℕ)
    : Type 0 where
  pub class_ref : Ref
  pub constructor : ℕ
  pub class_found :
      (calls : List JniCall) × (vm.answer calls (find_class class_name) ≡ result class_ref.object)
  pub constructor_found :
      (calls : List JniCall) × (vm.answer calls
          (get_method_id (some class_ref) (codes "<init>") ctor_sig)
        ≡ result constructor)
  pub constructed :
      (calls : List JniCall) × (vm.answer calls
          (new_object (some class_ref) (some constructor) args)
        ≡ result x)

-- The exception that was constructed is pending; or Throw failed, or a step before it, the status is
-- -1 and some other exception is pending. A new exception's reference is left behind.
pub data IsThrowDone (vm : Vm) (class_name ctor_sig : List ℕ) (args : List Arg) (l : List ℕ)
    (n f : ℕ) : ℕ × Env → Type 0 where
  thrown_ok :
      (r : Ref) (e : Env)
      → n ≤ r.handle
      → IsAt (r.handle ∷ l) n f e
      → e.pending ≡ some r.object
      → IsInstance vm class_name ctor_sig args r.object
      → IsThrowDone vm class_name ctor_sig args l n f (0, e)
  throw_refused :
      (r : Ref) (x : ℕ) (e : Env)
      → n ≤ r.handle
      → IsAt (r.handle ∷ l) n f e
      → e.pending ≡ some x
      → IsThrowDone vm class_name ctor_sig args l n f (minus_one, e)
  throw_failed :
      (x : ℕ) (e : Env)
      → IsAt l n f e
      → e.pending ≡ some x
      → IsThrowDone vm class_name ctor_sig args l n f (minus_one, e)

pub args_live_later :
    (args : List Arg) (x : ℕ) (l : List ℕ) → args_live args l ≡ true → args_live args (x ∷ l) ≡ true
args_live_later [] x l h = refl
args_live_later (int_arg i ∷ args) x l h = args_live_later args x l h
args_live_later (ref_arg none ∷ args) x l h = args_live_later args x l h
args_live_later (ref_arg (some r) ∷ args) x l h =
    and_intro _ _ (is_live_later r.handle x l (and_left _ _ h))
      (args_live_later args x l (and_right _ _ h))

module _ (vm : Vm) (a : Allocator) (core : IsCore vm) (quiet : IsQuiet vm) where
  pub discard_pending_exception_lem :
      (l : List ℕ) (n f : ℕ) (class_name : List ℕ) (e : Env)
      → IsAt l n f e
      → IsAt l n f ((discard_pending_exception vm a class_name e).1)
        × IsCalm ((discard_pending_exception vm a class_name e).1)
  unfolding discard_pending_exception discard_occurred write_log
  discard_pending_exception_lem l n f class_name e h =
      from_pending (exception_occurred e) (exception_occurred_lem e h)
    where
      from_pending :
          (r : Option Ref × Env)
          → IsOccurred l n f e.pending r
          → IsAt l n f (((exception_clear >> discard_occurred vm a r.0 class_name) r.1).1)
            × IsCalm (((exception_clear >> discard_occurred vm a r.0 class_name) r.1).1)
      from_pending (none, e') h = exception_clear_lem e' h.0
      from_pending (some x, e') h =
          let o = h.0 in
          let c = exception_clear_lem e' (IsAt-weaken n (omega (arith, o)) h.1) in
          let s =
            (get_exception_summary_lem vm a core (x.handle ∷ l) n f none x _ c.0 c.1
              (is_live_first x.handle l)).0 in
          let w = write_log_lem _ _ s.at in
          let d = delete_first_lem x _ w.0 in (d.0, d.1 ∙ (w.1 ∙ IsSummarized-IsCalm quiet s))

module _ (vm : Vm) (a : Allocator) (raising : IsRaising vm) (cn sig : List ℕ) (args : List Arg)
    (l : List ℕ) (n f : ℕ) (c : Ref) (o : n ≤ c.handle) where
  closing : ℕ → Action ℕ
  closing status = delete_local_ref (some c) >> pure status

  closed_failed :
      (entry : LogEntry) (x : ℕ) (e : Env)
      → IsAt (c.handle ∷ l) (suc c.handle) f e
      → e.pending ≡ some x
      → IsThrowDone vm cn sig args l n f ((write_log entry >> closing minus_one) e)
  unfolding closing
  closed_failed entry x e h p =
      let w = write_log_lem entry e h in
      let d = delete_first_lem c _ w.0 in
      throw_failed x _ (IsAt-weaken n (omega (arith, o)) d.0) (d.1 ∙ (w.1 ∙ p))

  thrown_closed :
      (r : Ref) (e : Env)
      → c.handle < r.handle
      → IsAt (r.handle ∷ (c.handle ∷ l)) (suc r.handle) f e
      → IsCalm e
      → IsInstance vm cn sig args r.object
      → IsThrowDone vm cn sig args l n f
          ((throw_ref vm (some r) >>= λ done. (throw_done vm a cn done >>= closing)) e)
  unfolding throw_done closing throw_ref write_log
  thrown_closed r e o' h p made = from (vm.answer e.calls (throw (some r))) refl
    where
      m : List ℕ
      m = r.handle ∷ (c.handle ∷ l)

      from :
          (y : Answer)
          → vm.answer e.calls (throw (some r)) ≡ y
          → IsThrowDone vm cn sig args l n f
              ((throw_done vm a cn (thrown (some r) y e).0 >>= closing) (thrown (some r) y e).1)
      from null_result w =
          let t = thrown_lem r null_result e h p (is_live_first r.handle (c.handle ∷ l)) in
          let d = delete_second_lem c r.handle _ o' t.0 in
          thrown_ok r _ (omega (arith, o, o')) (IsAt-weaken n (omega (arith, o, o')) d.0)
            (d.1 ∙ t.1) made
      from (result x) w = absurd (raising.throw e.calls (some r) x w)
      from (raised x) w =
          let t = thrown_lem r (raised x) e h p (is_live_first r.handle (c.handle ∷ l)) in
          let v = write_log_lem (not_thrown cn) _ t in
          let d = delete_second_lem c r.handle _ o' v.0 in
          throw_refused r x _ (omega (arith, o, o')) (IsAt-weaken n (omega (arith, o, o')) d.0)
            (d.1 ∙ v.1)

  throw_of_class_lem :
      (e : Env)
      → (calls : List JniCall) × (vm.answer calls (find_class cn) ≡ result c.object)
      → IsAt (c.handle ∷ l) (suc c.handle) f e
      → IsCalm e
      → args_live args l ≡ true
      → IsThrowDone vm cn sig args l n f ((throw_of_class vm a (some c) cn sig args >>= closing) e)
  unfolding throw_of_class construct_and_throw throw_instance
  throw_of_class_lem e found h p live =
      let Q = IsThrowDone vm cn sig args l n f in
      let m : List ℕ = c.handle ∷ l in
      value_bind Q m (suc c.handle) f vm (get_method_id (some c) (codes "<init>") sig) e h p
        (is_live_first c.handle l) (λ g. construct_and_throw vm a c cn sig args g >>= closing)
        (λ g e' w h p.
          local_bind Q m (suc c.handle) f vm (new_object (some c) (some g) args) e' h p
            (and_intro _ _ (is_live_first c.handle l) (args_live_later args c.handle l live))
            (λ r. throw_instance vm a cn r >>= closing)
            (λ r e'' w' o' h p. thrown_closed r e'' o' h p (record {
              class_ref = c;
              constructor = g;
              class_found = found;
              constructor_found = (e.calls, w);
              constructed = (e'.calls, w');
            }))
            (raising.object e'.calls (some c) (some g) args)
            (λ x e'' h p. closed_failed (not_constructed cn) x e'' h p))
        (raising.method e.calls (some c) (codes "<init>") sig)
        (λ x e' h p. closed_failed (constructor_not_found cn sig) x e' h p)

module _ (vm : Vm) (a : Allocator) (core : IsCore vm) (quiet : IsQuiet vm)
    (raising : IsRaising vm) where
  pub throw_exception-IsThrowDone :
      (cn sig : List ℕ) (args : List Arg) (l : List ℕ) (n f : ℕ) (e : Env)
      → IsAt l n f e
      → args_live args l ≡ true
      → IsThrowDone vm cn sig args l n f (throw_exception vm a cn sig args e)
  unfolding throw_exception throw_of_class closing delete_local_ref
  throw_exception-IsThrowDone cn sig args l n f e h live =
      let Q = IsThrowDone vm cn sig args l n f in
      let d = discard_pending_exception_lem vm a core quiet l n f cn e h in
      let e' = (discard_pending_exception vm a cn e).1 in
      local_bind Q l n f vm (find_class cn) e' d.0 d.1 refl
        (λ c. throw_of_class vm a c cn sig args >>= λ status. (delete_local_ref c >> pure status))
        (λ c e'' w o h p.
          throw_of_class_lem vm a raising cn sig args l n f c o e'' (e'.calls, w) h p live)
        (raising.class e'.calls cn)
        (λ x e'' h p.
          let w = write_log_lem (class_not_found cn) e'' h in throw_failed x _ w.0 (w.1 ∙ p))

  -- ThrowException with live arguments, and any exception pending or none, when the classes and
  -- methods of the core library that the code names are found, no method called for an object raises
  -- and NULL answers and a failed Throw come with an exception: it ends with status 0 and a new
  -- exception pending, which the constructor of the given signature of the given class made from the
  -- arguments, or with status -1 and some exception pending; it makes no call that the JNI
  -- specification forbids, leaves at most one local reference, to the new exception, and holds the
  -- UTF characters of before and no more.
  pub throw_exception_lem :
      (cn sig : List ℕ) (args : List Arg) (l : List ℕ) (n f : ℕ) (e : Env)
      → IsAt l n f e
      → args_live args l ≡ true
      → IsThrowDone vm cn sig args l n f (throw_exception vm a cn sig args e)
        × ((throw_exception vm a cn sig args e).1.held ≡ e.held)
  throw_exception_lem cn sig args l n f e h live = (
    throw_exception-IsThrowDone cn sig args l n f e h live,
    (throw_exception_grows vm a cn sig args).keeps e,
  )
