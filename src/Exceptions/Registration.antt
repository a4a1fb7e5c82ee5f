-- ===== src/Exceptions/Registration.antt =====
-- JNIHelp.c: registering native methods.
use platform_libnativehelper.Jni.{
  ◌>>◌, pure, Action, Answer, Vm, Env, perform_status, result, Ref, raised, register_natives,
  minus_one, JniCall, delete_local_ref, status_of, answered, null_result, exception_occurred,
  perform_local, write_log, registration_failed, find_class, referred, occurred, value_of,
}
use platform_libnativehelper.Base.{
  some_not_none, aborted≢returned, crashed, Outcome, aborted, returned, ℕ, zero, suc, ◌-◌, ◌≤◌, ◌<◌,
  ◌≡◌, refl, sym, ◌∙◌, subst, ◌↔◌, Option, none, some, List, ◌∷◌, arith,
}
use platform_libnativehelper.Text.{Allocator}
use platform_libnativehelper.Exceptions.Throwing.{
  registered, register_with, jni_register_native_methods, register_found, report_thrown,
}
use platform_libnativehelper.Exceptions.Faults.{registered_faults}
use platform_libnativehelper.Jni.Rules.{
  IsAt, IsCalm, delete_first_lem, referred_lem, write_log_lem, answered_lem, is_live_first,
  IsAt-weaken,
}

-- What registering comes to, by what RegisterNatives answered. When it raised, at least one call was
-- not allowed.
abbrev pub IsRegistered : List ℕ → ℕ → ℕ → Answer → Outcome (ℕ × Env) → Type 0
IsRegistered l n f null_result (returned (s, e)) = (s ≡ 0) × IsAt l n f e × IsCalm e
IsRegistered l n f (result m) (returned (s, e)) = (s ≡ suc m) × IsAt l n f e × IsCalm e
IsRegistered l n f (raised x) (returned (s, e)) = (s ≡ minus_one) × (f < e.faults)
IsRegistered l n f y aborted = ⊥
IsRegistered l n f y crashed = ⊥

module _ (vm : Vm) (a : Allocator) (cn : List ℕ) (methods num : ℕ) (l : List ℕ) (n f : ℕ) where
  unraised :
      (s : ℕ) (e : Env)
      → IsAt l n f e
      → IsCalm e
      → ((registered vm a cn s e).0 ≡ s)
        × IsAt l n f ((registered vm a cn s e).1)
        × IsCalm ((registered vm a cn s e).1)
  unfolding registered exception_occurred report_thrown
  unraised zero e h p = (refl, h, p)
  unraised (suc s) e h p =
      subst
        (λ z.
          ((ending (occurred z e).0 (occurred z e).1).0 ≡ suc s)
          × IsAt l n f ((ending (occurred z e).0 (occurred z e).1).1)
          × IsCalm ((ending (occurred z e).0 (occurred z e).1).1))
        (sym p) (let w = write_log_lem (registration_failed cn) e h in (refl, w.0, w.1 ∙ p))
    where
      ending : Option Ref → Action ℕ
      ending t = report_thrown vm a t >> (write_log (registration_failed cn) >> pure (suc s))

  register_with_lem :
      (c : Ref) (e : Env)
      → n ≤ c.handle
      → IsAt (c.handle ∷ l) (suc c.handle) f e
      → IsCalm e
      → IsRegistered l n f
          (vm.answer e.calls (register_natives (some c) methods num))
          (returned (register_with vm a c cn methods num e))
  unfolding register_with perform_status registered
  register_with_lem c e o h p = from (vm.answer e.calls (register_natives (some c) methods num))
    where
      q : JniCall
      q = register_natives (some c) methods num

      deleted :
          (y : Answer)
          → IsAt l n f ((delete_local_ref (some c) (answered q y e)).1)
            × ((delete_local_ref (some c) (answered q y e)).1.pending ≡ (answered q y e).pending)
      deleted y =
          let d =
            delete_first_lem c (answered q y e)
              (answered_lem q y e h p (is_live_first c.handle l)) in
          (IsAt-weaken n (omega (arith, o)) d.0, d.1)

      from :
          (y : Answer)
          → IsRegistered l n f y (
              returned
                ((delete_local_ref (some c) >> registered vm a cn (status_of y)) (answered q y e)))
      from null_result = let d = deleted null_result in unraised 0 _ d.0 (d.1 ∙ p)
      from (result m) = let d = deleted (result m) in unraised (suc m) _ d.0 (d.1 ∙ p)
      from (raised x) =
          let d = deleted (raised x) in
          let e' = (delete_local_ref (some c) (answered q (raised x) e)).1 in
          let g = registered_faults vm a cn (minus_one - 1) x e' d.1 in
          let k = d.0.faulted in (refl, omega (arith, g, k))

  -- jniRegisterNativeMethods with no exception pending, of a class that is found: it returns 0 if
  -- RegisterNatives did, and its status if that was not 0 and nothing was raised, with the local
  -- references of before and no forbidden call; if RegisterNatives raised, it returns -1, and has
  -- made at least one call that the JNI specification forbids.
  pub register_lem :
      (x : ℕ) (e : Env)
      → IsAt l n f e
      → IsCalm e
      → vm.answer e.calls (find_class cn) ≡ result x
      → IsRegistered l n f
          (vm.answer
            (find_class cn ∷ e.calls)
            (register_natives (some (record { handle = e.next; object = x })) methods num))
          (jni_register_native_methods vm a cn methods num e)
  unfolding jni_register_native_methods register_found perform_local
  register_lem x e h p w =
      subst
        (λ y.
          IsRegistered l n f
            (vm.answer (find_class cn ∷ e.calls)
              (register_natives (some (record { handle = e.next; object = x })) methods num))
            (register_found vm a cn methods num (referred (find_class cn) y e)))
        (sym w)
        (let r = referred_lem (find_class cn) (result x) e h p refl in
          register_with_lem (record { handle = e.next; object = x })
            (referred (find_class cn) (result x) e).1 r.0 r.1 r.2)

  -- jniRegisterNativeMethods stops the process exactly if FindClass gives NULL.
  register_aborts :
      (e : Env)
      → IsAt l n f e
      → IsCalm e
      → (jni_register_native_methods vm a cn methods num e ≡ aborted)
        ↔ (value_of (vm.answer e.calls (find_class cn)) ≡ none)
  unfolding jni_register_native_methods register_found perform_local
  register_aborts e h p = by_answer (vm.answer e.calls (find_class cn))
    where
      by_answer :
          (y : Answer)
          → (register_found vm a cn methods num (referred (find_class cn) y e) ≡ aborted)
            ↔ (value_of y ≡ none)
      by_answer null_result = ((λ w. refl), (λ w. refl))
      by_answer (raised x) = ((λ w. refl), (λ w. refl))
      by_answer (result x) =
          ((λ w. absurd (aborted≢returned _ w)), (λ w. absurd (some_not_none x w)))
