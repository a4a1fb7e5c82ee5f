-- ===== src/Exceptions/Message.antt =====
-- JNIHelp.c: the message of an exception in its summary.
use platform_libnativehelper.Jni.{◌>>=◌, ◌>>◌, pure, Action, Vm, Ref, Env, delete_local_ref}
use platform_libnativehelper.Base.{
  ℕ, ◌≡◌, refl, ◌∙◌, Bool, true, false, some, List, ◌∷◌, ◌++◌, false≢true, codes,
}
use platform_libnativehelper.Exceptions.{summarize_message, message_failed, append_message}
use platform_libnativehelper.Text.{Allocator}
use platform_libnativehelper.Text.Abstract.{Chars, chars}
use platform_libnativehelper.Exceptions.Calls.{
  append_At, appended_bind, append_jstring_lem, append_lem,
}
use platform_libnativehelper.Jni.Rules.{
  IsAt, IsCalm, is_live_first, exception_clear_lem, delete_first_lem,
}

-- The message of an exception stands behind the string, if the result is true.
abbrev pub IsMessage : List ℕ → ℕ → ℕ → Chars → List ℕ → (Bool × Chars) × Env → Type 0
IsMessage l n f dst text ((b, d), e) =
    IsAt l n f e × IsCalm e × (b ≡ true → d ≡ some (chars dst ++ codes ": " ++ text))

module _ (vm : Vm) (a : Allocator) where
  delete_local_ref-IsMessage :
      (l : List ℕ) (n f : ℕ) (m : Ref) (dst : Chars) (text : List ℕ) (b : Bool) (d : Chars)
      (e : Env)
      → IsAt (m.handle ∷ l) n f e
      → IsCalm e
      → (b ≡ true → d ≡ some (chars dst ++ codes ": " ++ text))
      → IsMessage l n f dst text ((delete_local_ref (some m) >> pure (b, d)) e)
  delete_local_ref-IsMessage l n f m dst text b d e h p w =
      let q = delete_first_lem m e h in (q.0, q.1 ∙ p, w)

  message_failed_lem :
      (l : List ℕ) (n f : ℕ) (m : Ref) (dst : Chars) (text : List ℕ) (d : Chars) (e : Env)
      → IsAt (m.handle ∷ l) n f e
      → IsMessage l n f dst text (
          (message_failed vm a (false, d) >>= λ result. (delete_local_ref (some m) >> pure result))
            e)
  unfolding message_failed
  message_failed_lem l n f m dst text d e h =
      let q =
        exception_clear_lem _
          (append_At vm a (m.handle ∷ l) n f (codes "<error getting message>") d e h) in
      delete_local_ref-IsMessage l n f m dst text false _ _ q.0 q.1 λ w. absurd (false≢true w)

  pub summarize_message_lem :
      (l : List ℕ) (n f : ℕ) (m : Ref) (dst : Chars) (e : Env)
      → IsAt (m.handle ∷ l) n f e
      → IsCalm e
      → IsMessage l n f dst (vm.utf_chars m.object) (summarize_message vm a (some m) dst e)
  unfolding summarize_message append_message message_failed
  summarize_message_lem l n f m dst e h p =
      let Q = IsMessage l n f dst (vm.utf_chars m.object) in
      let k : Bool × Chars → Action (Bool × Chars) =
        λ r. message_failed vm a r >>= λ result. (delete_local_ref (some m) >> pure result) in
      appended_bind Q (m.handle ∷ l) n f dst (codes ": ")
        (λ colon. append_message vm a (some m) colon >>= k) _
        (append_lem vm a (m.handle ∷ l) n f (codes ": ") dst e h p)
        (λ e h p.
          appended_bind Q (m.handle ∷ l) n f (some (chars dst ++ codes ": "))
            (vm.utf_chars m.object) k _
            (append_jstring_lem vm a (m.handle ∷ l) n f m _ e h p (is_live_first m.handle l))
            (λ e h p. delete_local_ref-IsMessage l n f m dst _ true _ e h p (λ w. refl))
            (λ d e h. message_failed_lem l n f m dst _ d e h))
        (λ d e h. message_failed_lem l n f m dst _ d e h)
