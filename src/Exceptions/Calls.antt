-- ===== src/Exceptions/Calls.antt =====
-- JNIHelp.c: the calls that the summary and the stack trace share, with what is assumed of the core
-- library of the virtual machine.
use platform_libnativehelper.Jni.{
  ◌>>=◌, ◌>>◌, pure, Action, Vm, JniCall, find_class, Ref, Env, get_method_id, call_object_method,
  raised, get_object_class, perform, delete_local_ref, is_live, perform_local, Answer, referred,
  result, null_result, release_string_utf_chars,
}
use platform_libnativehelper.Base.{
  ℕ, ◌≡◌, refl, sym, ◌∙◌, subst, ◌≢◌, Bool, true, false, Option, some, List, ◌∷◌, ◌++◌, arith,
  codes, ◌⊎◌, inl, inr,
}
use platform_libnativehelper.Exceptions.{
  sig_string, find_method, append, append_jstring, append_chars,
}
use platform_libnativehelper.Text.{Allocator}
use platform_libnativehelper.Text.Abstract.{Chars, chars, grow}
use platform_libnativehelper.Jni.Rules.{IsAt, IsCalm, delete_first_lem, IsAt-weaken, is_live_first}
use platform_libnativehelper.Jni.Found.{
  IsFound, IsValued, string_utf_chars_lem, perform_local_found, perform_found,
  release_string_utf_chars_lem,
}
use platform_libnativehelper.Jni.Binds.{read_bind, given_bind, valued_bind}

-- The methods of the core library that the code looks up.
pub data IsCoreMethod : List ℕ → List ℕ → Type 0 where
  get_name : IsCoreMethod (codes "getName") sig_string
  get_message : IsCoreMethod (codes "getMessage") sig_string
  to_string : IsCoreMethod (codes "toString") sig_string
  print_stack_trace : IsCoreMethod (codes "printStackTrace") (codes "(Ljava/io/PrintWriter;)V")
  string_writer_init : IsCoreMethod (codes "<init>") (codes "()V")
  print_writer_init : IsCoreMethod (codes "<init>") (codes "(Ljava/io/Writer;)V")

-- The classes and methods of the core library that the code names are always found, and every
-- object has a class.
pub record IsCore (vm : Vm) : Type 0 where
  pub class : IsFound vm (find_class (codes "java/lang/Class"))
  pub throwable : IsFound vm (find_class (codes "java/lang/Throwable"))
  pub string_writer : IsFound vm (find_class (codes "java/io/StringWriter"))
  pub print_writer : IsFound vm (find_class (codes "java/io/PrintWriter"))
  pub method :
      (c : Ref) (name signature : List ℕ)
      → IsCoreMethod name signature
      → IsFound vm (get_method_id (some c) name signature)
  pub object_class : (r : Ref) → IsFound vm (get_object_class (some r))

-- No method that is called for an object raises an exception, such as getMessage.
abbrev pub IsQuiet : Vm → Type 0
IsQuiet vm =
    (calls : List JniCall) (x : Option Ref) (m : Option ℕ) (y : ℕ)
    → vm.answer calls (call_object_method x m) ≢ raised y

-- What an append of a text to a string comes to.
abbrev pub IsAppended : List ℕ → ℕ → ℕ → Chars → List ℕ → (Bool × Chars) × Env → Type 0
IsAppended l n f dst text ((false, d), e) = IsAt l n f e
IsAppended l n f dst text ((true, d), e) = IsAt l n f e × IsCalm e × (d ≡ some (chars dst ++ text))

module _ (vm : Vm) (a : Allocator) where
  grown_lem :
      (l : List ℕ) (n f : ℕ) (b : Bool) (dst : Chars) (text : List ℕ) (e : Env)
      → IsAt l n f e
      → IsCalm e
      → IsAppended l n f dst text (grow b dst text, e)
  grown_lem l n f true dst text e h p = (h, p, refl)
  grown_lem l n f false dst text e h p = h

  pub append_At :
      (l : List ℕ) (n f : ℕ) (text : List ℕ) (dst : Chars) (e : Env)
      → IsAt l n f e
      → IsAt l n f ((append vm a text dst e).1)
  unfolding append
  append_At l n f text dst e h = record { held = h.held; fresh = h.fresh; faulted = h.faulted }

  pub append_lem :
      (l : List ℕ) (n f : ℕ) (text : List ℕ) (dst : Chars) (e : Env)
      → IsAt l n f e
      → IsCalm e
      → IsAppended l n f dst text (append vm a text dst e)
  unfolding append
  append_lem l n f text dst e h p =
      grown_lem l n f _ dst text _ (record { held = h.held; fresh = h.fresh; faulted = h.faulted })
        p

  -- The class is deleted behind the look up of a method.
  class_deleted :
      (l : List ℕ) (n f : ℕ) (c : Ref) (m : ℕ) (e : Env)
      → IsAt (c.handle ∷ l) n f e
      → IsCalm e
      → IsValued l n f ((delete_local_ref (some c) >> pure (some m)) e)
  class_deleted l n f c m e h p = let d = delete_first_lem c e h in (d.0, d.1 ∙ p)

  pub find_method_lem :
      (l : List ℕ) (n f : ℕ) (cn mn d : List ℕ) (e : Env)
      → IsFound vm (find_class cn)
      → ((c : Ref) → IsFound vm (get_method_id (some c) mn d))
      → IsAt l n f e
      → IsCalm e
      → IsValued l n f (find_method vm a cn mn d e)
  unfolding find_method
  find_method_lem l n f cn mn d e g k h p =
      given_bind (IsValued l n f) l n f
        (λ c. perform vm (get_method_id c mn d) >>= λ m. (delete_local_ref c >> pure m)) _
        (perform_local_found vm (find_class cn) e g h p refl)
        λ c e o h p.
          valued_bind (IsValued l n f) (c.handle ∷ l) n f (λ m. delete_local_ref (some c) >> pure m)
            _
            (perform_found vm (get_method_id (some c) mn d) e (k c)
              (IsAt-weaken n (omega (arith, o)) h) p (is_live_first c.handle l))
            λ m e h p. class_deleted l n f c m e h p

  append_released :
      (l : List ℕ) (n f : ℕ) (text : Ref) (x : ℕ) (dst : Chars) (e : Env)
      → is_live x e.held ≡ true
      → IsAt l n f e
      → IsCalm e
      → is_live text.handle l ≡ true
      → IsAppended l n f dst
          (vm.utf_chars text.object)
          (append_chars vm a (some text) (some x) dst e)
  unfolding append_chars append release_string_utf_chars
  append_released l n f text x dst e w h p q =
      grown_lem l n f _ dst (vm.utf_chars text.object) _
        (release_string_utf_chars_lem text x _ (append_At l n f (vm.utf_chars text.object) dst e h)
          w q)
        p

  pub append_jstring_lem :
      (l : List ℕ) (n f : ℕ) (text : Ref) (dst : Chars) (e : Env)
      → IsAt l n f e
      → IsCalm e
      → is_live text.handle l ≡ true
      → IsAppended l n f dst (vm.utf_chars text.object) (append_jstring vm a (some text) dst e)
  unfolding append_jstring append_chars
  append_jstring_lem l n f text dst e h p q =
      read_bind (IsAppended l n f dst (vm.utf_chars text.object)) l n f
        (λ t. append_chars vm a (some text) t dst) _ (string_utf_chars_lem vm text e h p q)
        (λ t e w h p. append_released l n f text t dst e w h p q) (λ e h. h)

-- What follows an append is shown for both of its ends.
module _ {B : Type 0} (Q : B × Env → Type 0) (l : List ℕ) (n f : ℕ) (dst : Chars)
    (text : List ℕ) where
  pub appended_bind :
      (k : Bool × Chars → Action B) (r : (Bool × Chars) × Env)
      → IsAppended l n f dst text r
      → ((e : Env) → IsAt l n f e → IsCalm e → Q (k (true, some (chars dst ++ text)) e))
      → ((d : Chars) (e : Env) → IsAt l n f e → Q (k (false, d) e))
      → Q (k r.0 r.1)
  appended_bind k ((false, d), e) h g g' = g' d e h
  appended_bind k ((true, d), e) h g g' = subst (λ x. Q (k (true, x) e)) (sym h.2) (g e h.0 h.1)

-- A method that was called for an object raised an exception.
abbrev pub IsRaised : Vm → Type 0
IsRaised vm =
    (calls : List JniCall) × (x : Option Ref) × (m : Option ℕ) × (y : ℕ) × (vm.answer calls
        (call_object_method x m)
      ≡ raised y)

-- A call for an object keeps the environment calm, or its method raised.
pub perform_local-IsCalm :
    (vm : Vm) (x : Option Ref) (m : Option ℕ) (e : Env)
    → IsCalm e
    → IsCalm ((perform_local vm (call_object_method x m) e).1) ⊎ IsRaised vm
unfolding perform_local
perform_local-IsCalm vm x m e p = calm_after (vm.answer e.calls (call_object_method x m)) refl
  where
    calm_after :
        (y : Answer)
        → vm.answer e.calls (call_object_method x m) ≡ y
        → IsCalm ((referred (call_object_method x m) y e).1) ⊎ IsRaised vm
    calm_after null_result w = inl p
    calm_after (result z) w = inl p
    calm_after (raised z) w = inr (e.calls, x, m, z, w)

pub IsQuiet-IsCalm : (vm : Vm) (e : Env) → IsQuiet vm → IsCalm e ⊎ IsRaised vm → IsCalm e
IsQuiet-IsCalm vm e q (inl p) = p
IsQuiet-IsCalm vm e q (inr r) = absurd (q r.0 r.1 r.2 r.3 r.4)
