-- ===== src/Exceptions/Trace.antt =====
-- JNIHelp.c: the stack trace of an exception, or its summary, leaves the environment as it was.
use platform_libnativehelper.Jni.{
  ◌>>=◌, ◌>>◌, pure, Action, Vm, perform, JniCall, Ref, call_void_method, Env, raised, Arg,
  delete_local_ref, find_class, is_live, Answer, ref_arg, args_live, answered, perform_local,
  get_method_id, call_object_method, result, new_object, null_result,
}
use platform_libnativehelper.Base.{
  ℕ, suc, ◌≤◌, ◌<◌, ◌≡◌, refl, ◌∙◌, ◌≢◌, Bool, true, false, Option, none, some, List, [], ◌∷◌, ◌++◌,
  arith, and_intro, false≢true, codes,
}
use platform_libnativehelper.Text.Abstract.{Chars, chars}
use platform_libnativehelper.Text.{Allocator}
use platform_libnativehelper.Exceptions.Calls.{
  IsCore, string_writer_init, IsCoreMethod, print_writer_init, find_method_lem, to_string,
  print_stack_trace, appended_bind, append_jstring_lem,
}
use platform_libnativehelper.Exceptions.{
  string_writer_to_string, new_string_writer, new_print_writer, sig_string, print_trace,
  append_trace, get_stack_trace, trace_written,
}
use platform_libnativehelper.Jni.Rules.{
  IsReferred, IsAt, delete_first_lem, IsCalm, is_live_first, answered_lem, delete_second_lem,
  is_live_later, IsAt-weaken, perform_local_lem,
}
use platform_libnativehelper.Jni.Found.{IsFound, perform_local_found, perform_found}
use platform_libnativehelper.Jni.Binds.{valued_bind, given_bind, referred_bind}

-- What a stack trace comes to: the references of before, and no exception if the result is true.
abbrev pub IsTraced : Vm → List ℕ → ℕ → ℕ → Chars → (Bool × Chars) × Env → Type 0
IsTraced vm l n f dst ((b, d), e) =
    IsAt l n f e
    × (b ≡ true → IsCalm e × (trace : ℕ) × (d ≡ some (chars dst ++ vm.utf_chars trace)))

-- No printStackTrace raises an exception.
abbrev pub IsPrinting : Vm → Type 0
IsPrinting vm =
    (calls : List JniCall) (x : Option Ref) (m : Option ℕ) (w : Option Ref) (y : ℕ)
    → vm.answer calls (call_void_method x m w) ≢ raised y

-- After a call without a result, when no exception is raised.
pub call_void_lem :
    (vm : Vm) (l : List ℕ) (n f : ℕ) (x w : Ref) (m : ℕ) (e : Env)
    → IsPrinting vm
    → IsAt l n f e
    → IsCalm e
    → is_live x.handle l ≡ true
    → is_live w.handle l ≡ true
    → IsAt l n f ((perform vm (call_void_method (some x) (some m) (some w)) e).1)
      × IsCalm ((perform vm (call_void_method (some x) (some m) (some w)) e).1)
unfolding perform
call_void_lem vm l n f x w m e g h p u v = calm_after (vm.answer e.calls c) refl
  where
    c : JniCall
    c = call_void_method (some x) (some m) (some w)

    calm_after :
        (y : Answer)
        → vm.answer e.calls c ≡ y
        → IsAt l n f (answered c y e) × IsCalm (answered c y e)
    calm_after null_result q = (answered_lem c null_result e h p (and_intro _ _ u v), p)
    calm_after (result z) q = (answered_lem c (result z) e h p (and_intro _ _ u v), p)
    calm_after (raised z) q = absurd (g e.calls (some x) (some m) (some w) z q)

module _ (vm : Vm) (a : Allocator) (core : IsCore vm) where
  -- The class of a new object is deleted behind it.
  new_deleted :
      (l : List ℕ) (n f : ℕ) (c : Ref) (r : Option Ref × Env)
      → n ≤ c.handle
      → IsReferred (c.handle ∷ l) (suc c.handle) f r
      → IsReferred l n f ((delete_local_ref (some c) >> pure r.0) r.1)
  new_deleted l n f c (none, e) o h = (delete_first_lem c e (IsAt-weaken n (omega (arith, o)) h)).0
  new_deleted l n f c (some x, e) o h =
      let o' = h.0 in
      let d = delete_second_lem c x.handle e o' h.1 in (omega (arith, o, o'), d.0, d.1 ∙ h.2)

  -- An object of a class of the core library.
  constructed_lem :
      (l : List ℕ) (n f : ℕ) (cn d : List ℕ) (args : List Arg) (e : Env)
      → IsFound vm (find_class cn)
      → IsCoreMethod (codes "<init>") d
      → IsAt l n f e
      → IsCalm e
      → ((h : ℕ) → args_live args (h ∷ l) ≡ true)
      → IsReferred l n f (
          (perform_local vm (find_class cn) >>= λ c.
          (perform vm (get_method_id c (codes "<init>") d) >>= λ m.
          (perform_local vm (new_object c m args) >>= λ x. (delete_local_ref c >> pure x))))
            e)
  constructed_lem l n f cn d args e g k h p live =
      let Q = IsReferred l n f in
      given_bind Q l n f
        (λ c. perform vm (get_method_id c (codes "<init>") d) >>= λ m.
          (perform_local vm (new_object c m args) >>= λ x. (delete_local_ref c >> pure x)))
        _ (perform_local_found vm (find_class cn) e g h p refl)
        λ c e o h p.
          valued_bind Q (c.handle ∷ l) (suc c.handle) f
            (λ m. perform_local vm (new_object (some c) m args) >>= λ x.
              (delete_local_ref (some c) >> pure x))
            _
            (perform_found vm (get_method_id (some c) (codes "<init>") d) e (core.method c _ _ k) h
              p (is_live_first c.handle l))
            λ m e h p.
              new_deleted l n f c (perform_local vm (new_object (some c) (some m) args) e) o (
                perform_local_lem vm (new_object (some c) (some m) args) e h p
                  (and_intro _ _ (is_live_first c.handle l) (live c.handle)))

  new_string_writer_lem :
      (l : List ℕ) (n f : ℕ) (e : Env)
      → IsAt l n f e
      → IsCalm e
      → IsReferred l n f (new_string_writer vm a e)
  unfolding new_string_writer
  new_string_writer_lem l n f e h p =
      constructed_lem l n f _ _ [] e core.string_writer string_writer_init h p λ x. refl

  new_print_writer_lem :
      (l : List ℕ) (n f : ℕ) (w : Ref) (e : Env)
      → IsAt l n f e
      → IsCalm e
      → is_live w.handle l ≡ true
      → IsReferred l n f (new_print_writer vm a (some w) e)
  unfolding new_print_writer
  new_print_writer_lem l n f w e h p live =
      constructed_lem l n f _ _ (ref_arg (some w) ∷ []) e core.print_writer print_writer_init h p
        λ x. and_intro _ _ (is_live_later w.handle x l live) refl

  to_string_lem :
      (l : List ℕ) (n f : ℕ) (w : Ref) (e : Env)
      → IsAt l n f e
      → IsCalm e
      → is_live w.handle l ≡ true
      → IsReferred l n f (string_writer_to_string vm a (some w) e)
  unfolding string_writer_to_string
  to_string_lem l n f w e h p live =
      valued_bind (IsReferred l n f) l n f (λ m. perform_local vm (call_object_method (some w) m)) _
        (find_method_lem vm a l n f (codes "java/io/StringWriter") (codes "toString") sig_string e
          core.string_writer (λ x. core.method x _ _ to_string) h p)
        λ m e h p. perform_local_lem vm (call_object_method (some w) (some m)) e h p live

module _ (vm : Vm) (a : Allocator) (l : List ℕ) (n f : ℕ) (dst : Chars) where
  untraced : (d : Chars) (e : Env) → IsAt l n f e → IsTraced vm l n f dst ((false, d), e)
  untraced d e h = (h, λ w. absurd (false≢true w))

  append_trace_lem :
      (t : Ref) (e : Env)
      → IsAt (t.handle ∷ l) n f e
      → IsCalm e
      → IsTraced vm l n f dst (append_trace vm a (some t) dst e)
  unfolding append_trace
  append_trace_lem t e h p =
      appended_bind (IsTraced vm l n f dst) (t.handle ∷ l) n f dst (vm.utf_chars t.object)
        (λ r. delete_local_ref (some t) >> pure r) _
        (append_jstring_lem vm a (t.handle ∷ l) n f t dst e h p (is_live_first t.handle l))
        (λ e h p. let d = delete_first_lem t e h in (d.0, λ w. (d.1 ∙ p, t.object, refl)))
        (λ d e h. untraced d _ (delete_first_lem t e h).0)

  -- The writers are deleted under the trace, or when there is none.
  trace_kept :
      (s w t : Ref) (e : Env)
      → s.handle < t.handle
      → w.handle < t.handle
      → IsAt (t.handle ∷ (w.handle ∷ (s.handle ∷ l))) n f e
      → IsCalm e
      → IsTraced vm l n f dst (
          (delete_local_ref (some w)
              >> (delete_local_ref (some s) >> append_trace vm a (some t) dst))
            e)
  trace_kept s w t e o o' h p =
      let d = delete_second_lem w t.handle e o' h in
      let d' = delete_second_lem s t.handle _ o d.0 in append_trace_lem t _ d'.0 (d'.1 ∙ (d.1 ∙ p))

  trace_missing :
      (s w : Ref) (e : Env)
      → IsAt (w.handle ∷ (s.handle ∷ l)) n f e
      → IsTraced vm l n f dst (
          (delete_local_ref (some w) >> (delete_local_ref (some s) >> append_trace vm a none dst))
            e)
  unfolding append_trace
  trace_missing s w e h = untraced dst _ (delete_first_lem s _ (delete_first_lem w e h).0).0

module _ (vm : Vm) (a : Allocator) (core : IsCore vm) (print : IsPrinting vm) (l : List ℕ) (n f : ℕ)
    (dst : Chars) (t : Ref) (live : is_live t.handle l ≡ true) where
  print_trace_lem :
      (s w : Ref) (e : Env)
      → n ≤ s.handle
      → s.handle < w.handle
      → IsAt (w.handle ∷ (s.handle ∷ l)) (suc w.handle) f e
      → IsCalm e
      → IsTraced vm l n f dst (print_trace vm a (some t) (some s) (some w) dst e)
  unfolding print_trace
  print_trace_lem s w e o o' h p =
      let Q = IsTraced vm l n f dst in
      let m : List ℕ = w.handle ∷ (s.handle ∷ l) in
      let k : Option Ref → Action (Bool × Chars) = λ x.
        (delete_local_ref (some w) >> (delete_local_ref (some s) >> append_trace vm a x dst)) in
      valued_bind Q m (suc w.handle) f
        (λ g.
          perform vm (call_void_method (some t) g (some w))
          >> (string_writer_to_string vm a (some s) >>= k))
        _
        (find_method_lem vm a m (suc w.handle) f (codes "java/lang/Throwable")
          (codes "printStackTrace") (codes "(Ljava/io/PrintWriter;)V") e core.throwable
          (λ x. core.method x _ _ print_stack_trace) h p)
        λ g e h p.
          let c =
            call_void_lem vm m (suc w.handle) f t w g e print h p
              (is_live_later t.handle w.handle (s.handle ∷ l)
                (is_live_later t.handle s.handle l live))
              (is_live_first w.handle (s.handle ∷ l)) in
          referred_bind Q m (suc w.handle) f k _
            (to_string_lem vm a core m (suc w.handle) f s _ c.0 c.1
              (is_live_later s.handle w.handle (s.handle ∷ l) (is_live_first s.handle l)))
            (λ x e v h p.
              trace_kept vm a l n f dst s w x e (omega (arith, o', v)) v
                (IsAt-weaken n (omega (arith, o, o', v)) h) p)
            (λ e h q. trace_missing vm a l n f dst s w e (IsAt-weaken n (omega (arith, o, o')) h))

  unprinted :
      (s : Ref) (e : Env)
      → IsAt (s.handle ∷ l) n f e
      → IsTraced vm l n f dst (print_trace vm a (some t) (some s) none dst e)
  unfolding print_trace
  unprinted s e h = untraced vm a l n f dst dst _ (delete_first_lem s e h).0

  pub get_stack_trace_lem :
      (e : Env)
      → IsAt l n f e
      → IsCalm e
      → IsTraced vm l n f dst (get_stack_trace vm a (some t) dst e)
  unfolding get_stack_trace trace_written
  get_stack_trace_lem e h p =
      let Q = IsTraced vm l n f dst in
      referred_bind Q l n f (λ s. trace_written vm a (some t) s dst) _
        (new_string_writer_lem vm a core l n f e h p)
        (λ s e o h p.
          referred_bind Q (s.handle ∷ l) (suc s.handle) f
            (λ w. print_trace vm a (some t) (some s) w dst) _
            (new_print_writer_lem vm a core (s.handle ∷ l) (suc s.handle) f s e h p
              (is_live_first s.handle l))
            (λ w e o' h p. print_trace_lem s w e o o' h p)
            (λ e h q. unprinted s e (IsAt-weaken n (omega (arith, o)) h)))
        (λ e h q. untraced vm a l n f dst dst e h)
