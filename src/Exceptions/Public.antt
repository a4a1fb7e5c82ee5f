-- ===== src/Exceptions/Public.antt =====
-- JNIHelp.c: the functions that throw an exception with a message.
use platform_libnativehelper.Jni.{
  ◌>>=◌, ◌>>◌, pure, Vm, Env, Arg, ref_arg, perform_local, new_string_utf, Ref, delete_local_ref,
  args_live, int_arg,
}
use platform_libnativehelper.Base.{
  ℕ, suc, ◌≤◌, ◌≡◌, refl, ◌∙◌, true, Option, none, some, List, [], ◌∷◌, arith, and_intro, codes,
  take,
}
use platform_libnativehelper.Text.{Allocator}
use platform_libnativehelper.Exceptions.Calls.{IsCore, IsQuiet}
use platform_libnativehelper.Exceptions.Thrown.{
  IsRaising, IsThrowDone, thrown_ok, throw_exception-IsThrowDone, throw_refused, throw_failed,
  args_live_later,
}
use platform_libnativehelper.Exceptions.Throwing.{
  throw_with_message, message_created, create_exception_msg, jni_throw_exception,
  jni_throw_exception_fmt, throw_exception, jni_throw_null_pointer_exception,
  jni_throw_runtime_exception, jni_throw_io_exception, jni_throw_errno_exception, snprintf,
  Strerror, platform_str_error,
}
use platform_libnativehelper.Jni.Rules.{
  IsReferred, IsAt, delete_second_lem, exception_clear_lem, IsAt-weaken, IsCalm, delete_first_lem,
  perform_local_lem, is_live_first,
}

module _ (vm : Vm) (a : Allocator) (core : IsCore vm) (quiet : IsQuiet vm)
    (raising : IsRaising vm) where
  -- The message is deleted under the exception.
  message_deleted :
      (cn sig : List ℕ) (args : List Arg) (l : List ℕ) (n f : ℕ) (d : Ref) (r : ℕ × Env)
      → n ≤ d.handle
      → IsThrowDone vm cn sig args (d.handle ∷ l) (suc d.handle) f r
      → IsThrowDone vm cn sig args l n f ((delete_local_ref (some d) >> pure r.0) r.1)
  message_deleted cn sig args l n f d _ o (thrown_ok r e o' h p made) =
      let x = delete_second_lem d r.handle e o' h in
      thrown_ok r _ (omega (arith, o, o')) (IsAt-weaken n (omega (arith, o)) x.0) (x.1 ∙ p) made
  message_deleted cn sig args l n f d _ o (throw_refused r y e o' h p) =
      let x = delete_second_lem d r.handle e o' h in
      throw_refused r y _ (omega (arith, o, o')) (IsAt-weaken n (omega (arith, o)) x.0) (x.1 ∙ p)
  message_deleted cn sig args l n f d _ o (throw_failed y e h p) =
      let x = delete_first_lem d e h in
      throw_failed y _ (IsAt-weaken n (omega (arith, o)) x.0) (x.1 ∙ p)

  throw_created :
      (cn sig : List ℕ) (more : List Arg) (l : List ℕ) (n f : ℕ) (r : Option Ref × Env)
      → IsReferred l n f r
      → args_live more l ≡ true
      → IsThrowDone vm cn sig (ref_arg r.0 ∷ more) l n f (
          (message_created vm a r.0 >>= λ detail.
          (throw_exception vm a cn sig (ref_arg detail ∷ more) >>= λ status.
          (delete_local_ref detail >> pure status)))
            r.1)
  unfolding message_created delete_local_ref
  throw_created cn sig more l n f (none, e) h live =
      throw_exception-IsThrowDone vm a core quiet raising cn sig (ref_arg none ∷ more) l n f _
        (exception_clear_lem e h).0 live
  throw_created cn sig more l n f (some d, e) h live =
      message_deleted cn sig (ref_arg (some d) ∷ more) l n f d
        (throw_exception vm a cn sig (ref_arg (some d) ∷ more) e) h.0
        (throw_exception-IsThrowDone vm a core quiet raising cn sig (ref_arg (some d) ∷ more)
          (d.handle ∷ l) (suc d.handle) f e h.1
          (and_intro _ _ (is_live_first d.handle l) (args_live_later more d.handle l live)))

  pub throw_with_message_lem :
      (cn sig : List ℕ) (msg : Option (List ℕ)) (more : List Arg) (l : List ℕ) (n f : ℕ) (e : Env)
      → IsAt l n f e
      → IsCalm e
      → args_live more l ≡ true
      → IsThrowDone vm cn sig
          (ref_arg (perform_local vm (new_string_utf msg) e).0 ∷ more)
          l
          n
          f
          (throw_with_message vm a cn sig msg more e)
  unfolding throw_with_message create_exception_msg
  throw_with_message_lem cn sig msg more l n f e h p live =
      throw_created cn sig more l n f (perform_local vm (new_string_utf msg) e)
        (perform_local_lem vm (new_string_utf msg) e h p refl) live

-- Each public function throws an exception of its own class, from its own arguments.
abbrev pub message_sig : List ℕ
message_sig = codes "(Ljava/lang/String;)V"

-- The object of a message.
abbrev pub created : Vm → Env → Option (List ℕ) → Arg
created vm e msg = ref_arg (perform_local vm (new_string_utf msg) e).0

module _ (vm : Vm) (a : Allocator) (core : IsCore vm) (quiet : IsQuiet vm) (raising : IsRaising vm)
    (l : List ℕ) (n f : ℕ) (e : Env) (h : IsAt l n f e) (p : IsCalm e) where
  -- Each public function that throws, when the classes and methods of the core library that the code
  -- names are found, no exception is pending, no method called for an object raises and NULL answers
  -- and a failed Throw come with an exception: it ends with status 0 and a new exception pending,
  -- which the constructor looked up in the class of its name made from its own message (cut to 511
  -- characters, or the text of the error number) and its error number; or with status -1 and some
  -- exception pending; it makes no call that the JNI specification forbids, and leaves at most one
  -- local reference, to the new exception.
  pub public_throw_lem :
      (cn text : List ℕ) (msg : Option (List ℕ)) (c : Strerror) (errnum : ℕ)
      → IsThrowDone vm cn message_sig
          (created vm e msg ∷ [])
          l
          n
          f
          (jni_throw_exception vm a cn msg e)
        × IsThrowDone vm cn message_sig
            (created vm e (some (take 511 text)) ∷ [])
            l
            n
            f
            (jni_throw_exception_fmt vm a cn text e)
        × IsThrowDone vm
            (codes "java/lang/NullPointerException")
            message_sig
            (created vm e msg ∷ [])
            l
            n
            f
            (jni_throw_null_pointer_exception vm a msg e)
        × IsThrowDone vm
            (codes "java/lang/RuntimeException")
            message_sig
            (created vm e msg ∷ [])
            l
            n
            f
            (jni_throw_runtime_exception vm a msg e)
        × IsThrowDone vm
            (codes "java/io/IOException")
            message_sig
            (created vm e (some (platform_str_error c errnum 80)) ∷ [])
            l
            n
            f
            (jni_throw_io_exception vm a c errnum e)
        × IsThrowDone vm
            (codes "android/system/ErrnoException")
            (codes "(Ljava/lang/String;I)V")
            (created vm e msg ∷ (int_arg errnum ∷ []))
            l
            n
            f
            (jni_throw_errno_exception vm a msg errnum e)
  unfolding jni_throw_exception jni_throw_exception_fmt jni_throw_null_pointer_exception
      jni_throw_runtime_exception jni_throw_io_exception jni_throw_errno_exception snprintf
  public_throw_lem cn text msg c errnum =
      let t =
        λ (cn sig : List ℕ) (msg : Option (List ℕ)) (more : List Arg)
            (live : args_live more l ≡ true).
          throw_with_message_lem vm a core quiet raising cn sig msg more l n f e h p live in
      (
        t cn message_sig msg [] refl,
        t cn message_sig (some (take 511 text)) [] refl,
        t (codes "java/lang/NullPointerException") message_sig msg [] refl,
        t (codes "java/lang/RuntimeException") message_sig msg [] refl,
        t (codes "java/io/IOException") message_sig (some (platform_str_error c errnum 80)) [] refl,
        t (codes "android/system/ErrnoException") (codes "(Ljava/lang/String;I)V") msg
            (int_arg errnum ∷ []) refl,
      )
