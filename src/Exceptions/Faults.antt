-- ===== src/Exceptions/Faults.antt =====
-- JNIHelp.c: calls that are made while an exception is pending.
use platform_libnativehelper.Jni.{
  ◌>>◌, pure, Action, Vm, exception_occurred, Ref, Arg, Env, perform_local, write_log,
  new_string_utf, get_object_class, registration_failed, occurred, delete_local_ref,
}
use platform_libnativehelper.Base.{
  ℕ, suc, ◌<◌, ◌≡◌, sym, subst, Bool, true, false, Option, none, some, List, ◌∷◌, arith,
}
use platform_libnativehelper.Text.{Allocator}
use platform_libnativehelper.Exceptions.Throwing.{
  throw_with_message, log_summary, registered, create_exception_msg, report_thrown,
}
use platform_libnativehelper.Exceptions.{get_exception_summary}
use platform_libnativehelper.Text.Abstract.{Chars}
use platform_libnativehelper.Jni.Growth.{
  IsGrowing, perform_local_faults, growing, pure_grows, write_log_grows,
}
use platform_libnativehelper.Exceptions.Growth.{throw_created_grows, named_grows}

module _ (vm : Vm) (a : Allocator) where
  -- A function that throws with a message, called while an exception is pending, makes a call that
  -- the JNI specification forbids, on every virtual machine and with every allocator.
  pub throw_with_message_faults :
      (cn sig : List ℕ) (msg : Option (List ℕ)) (more : List Arg) (x : ℕ) (e : Env)
      → e.pending ≡ some x
      → e.faults < (throw_with_message vm a cn sig msg more e).1.faults
  unfolding throw_with_message create_exception_msg
  throw_with_message_faults cn sig msg more x e p =
      let r = perform_local vm (new_string_utf msg) e in
      let h = perform_local_faults vm (new_string_utf msg) x e p in
      let g = (throw_created_grows vm a cn sig more r.0).grows r.1 in omega (arith, h, g)

  get_exception_summary_faults :
      (t : Option Ref) (d : Chars) (x : ℕ) (e : Env)
      → e.pending ≡ some x
      → e.faults < (get_exception_summary vm a t d e).1.faults
  unfolding get_exception_summary
  get_exception_summary_faults t d x e p =
      let r = perform_local vm (get_object_class t) e in
      let h = perform_local_faults vm (get_object_class t) x e p in
      let g = (named_grows vm a t r.0 d).grows r.1 in omega (arith, h, g)

  log_summary_grows : (r : Bool × Chars) → IsGrowing (log_summary vm a r)
  unfolding log_summary
  log_summary_grows (true, d) = search growing
  log_summary_grows (false, d) = pure_grows tt

  told_grows :
      (t : Ref) (r : Bool × Chars) → IsGrowing (log_summary vm a r >> delete_local_ref (some t))
  told_grows t r = search (growing, log_summary_grows) depth 9

  -- The exception that the registration raised is summarised while it is pending.
  pub registered_faults :
      (cn : List ℕ) (s x : ℕ) (e : Env)
      → e.pending ≡ some x
      → e.faults < (registered vm a cn (suc s) e).1.faults
  unfolding registered exception_occurred report_thrown
  registered_faults cn s x e p =
      subst (λ z. e.faults < (ending (occurred z e).0 (occurred z e).1).1.faults) (sym p)
        (let h = get_exception_summary_faults (some t) none x e' p in
          let g = (told_grows t r.0).grows r.1 in
          let g' =
            (write_log_grows (registration_failed cn)).grows
              ((log_summary vm a r.0 >> delete_local_ref (some t)) r.1).1 in
          omega (arith, h, g, g'))
    where
      ending : Option Ref → Action ℕ
      ending t = report_thrown vm a t >> (write_log (registration_failed cn) >> pure (suc s))

      t : Ref
      t = record { handle = e.next; object = x }

      e' : Env
      e' = record e { locals = e.next ∷ e.locals; next = suc e.next }

      r : (Bool × Chars) × Env
      r = get_exception_summary vm a (some t) none e'
