-- ===== src/Exceptions/Answers.antt =====
-- JNIHelp.c: on a virtual machine where no call fails, a summary is made and an exception is thrown.
use platform_libnativehelper.Jni.{
  ◌>>=◌, ◌>>◌, pure, Action, Vm, Env, Ref, call_object_method, string_utf_chars,
  get_string_utf_chars, is_live, delete_local_ref, answered, perform_local, result,
  get_object_class, Arg, find_class, get_method_id, new_object, args_live, Answer, with_held,
  value_of,
}
use platform_libnativehelper.Base.{
  ℕ, suc, ◌≡◌, refl, sym, ap, ◌∙◌, subst, Bool, true, false, some, List, ◌∷◌, ◌++◌, arith,
  and_intro, false≢true, codes, Option,
}
use platform_libnativehelper.Text.{Allocator}
use platform_libnativehelper.Text.Abstract.{Chars, grow, needed, chars}
use platform_libnativehelper.Exceptions.Calls.{
  IsCore, IsAppended, append_lem, append_jstring_lem, find_method_lem, get_message, get_name,
  IsQuiet,
}
use platform_libnativehelper.Exceptions.{
  summarize_named, append_jstring, summarize_message, append, get_exception_summary, append_message,
  summarize_class, message_failed, append_chars, find_method, sig_string,
}
use platform_libnativehelper.Exceptions.Report.{IsThrowing, throw_ref_done}
use platform_libnativehelper.Exceptions.Throwing.{
  throw_of_class, throw_exception, construct_and_throw, throw_instance, discard_pending_exception,
  throw_done,
}
use platform_libnativehelper.Exceptions.Thrown.{discard_pending_exception_lem, args_live_later}
use platform_libnativehelper.Jni.Rules.{
  IsAt, IsCalm, delete_first_lem, is_live_first, IsAt-weaken, delete_second_lem,
}
use platform_libnativehelper.Jni.Found.{IsFound, perform_local_found, perform_found}
use platform_libnativehelper.Jni.Binds.{given_bind, valued_bind}

-- Every object that a method is called for gives an object back, and every string its characters.
pub record IsAnswering (vm : Vm) : Type 0 where
  pub object : (x : Ref) (m : ℕ) → IsFound vm (call_object_method (some x) (some m))
  pub characters : (x : Ref) → IsFound vm (get_string_utf_chars (some x))

abbrev pub IsGranting : Allocator → Type 0
IsGranting a = (asked : List ℕ) (size : ℕ) → a.grants asked size ≡ true

-- The summary answers true.
abbrev IsTrue : (Bool × Chars) × Env → Type 0
IsTrue r = r.0.0 ≡ true

-- What follows an append that succeeds.
module _ {B : Type 0} (Q : B × Env → Type 0) (l : List ℕ) (n f : ℕ) (dst : Chars)
    (text : List ℕ) where
  granted_bind :
      (k : Bool × Chars → Action B) (r : (Bool × Chars) × Env)
      → IsAppended l n f dst text r
      → r.0.0 ≡ true
      → ((e : Env) → IsAt l n f e → IsCalm e → Q (k (true, some (chars dst ++ text)) e))
      → Q (k r.0 r.1)
  granted_bind k ((false, d), e) h t g = absurd (false≢true t)
  granted_bind k ((true, d), e) h t g = subst (λ x. Q (k (true, x) e)) (sym h.2) (g e h.0 h.1)

module _ (vm : Vm) (a : Allocator) (core : IsCore vm) (answering : IsAnswering vm)
    (granting : IsGranting a) where
  append-IsTrue : (text : List ℕ) (dst : Chars) (e : Env) → IsTrue (append vm a text dst e)
  unfolding append
  append-IsTrue text dst e = ap (λ b. (grow b dst text).0) (granting e.asked (needed dst text))

  append_jstring-IsTrue :
      (t : Ref) (dst : Chars) (e : Env) → IsTrue (append_jstring vm a (some t) dst e)
  unfolding append_jstring string_utf_chars append_chars
  append_jstring-IsTrue t dst e =
      let x = answering.characters t e.calls in
      let q = get_string_utf_chars (some t) in
      let g : Answer → Option ℕ × Env = λ y. with_held (value_of y, answered q y e) in
      ap (λ y. (append_chars vm a (some t) (g y).0 dst (g y).1).0.0) x.1
      ∙ append-IsTrue (vm.utf_chars t.object) dst (g (result x.0)).1

  module _ (l : List ℕ) (n f : ℕ) where
    summarize_message-IsTrue :
        (m : Ref) (dst : Chars) (e : Env)
        → IsAt (m.handle ∷ l) n f e
        → IsCalm e
        → IsTrue (summarize_message vm a (some m) dst e)
    unfolding summarize_message append_message message_failed
    summarize_message-IsTrue m dst e h p =
        let k : Bool × Chars → Action (Bool × Chars) =
          λ r. message_failed vm a r >>= λ result. (delete_local_ref (some m) >> pure result) in
        granted_bind IsTrue (m.handle ∷ l) n f dst (codes ": ")
          (λ colon. append_message vm a (some m) colon >>= k) _
          (append_lem vm a (m.handle ∷ l) n f (codes ": ") dst e h p)
          (append-IsTrue (codes ": ") dst e)
          (λ e h p.
            granted_bind IsTrue (m.handle ∷ l) n f (some (chars dst ++ codes ": "))
              (vm.utf_chars m.object) k _
              (append_jstring_lem vm a (m.handle ∷ l) n f m _ e h p (is_live_first m.handle l))
              (append_jstring-IsTrue m _ e) (λ e h p. refl))

    summarize_named-IsTrue :
        (t c : Ref) (dst : Chars) (e : Env)
        → IsAt (c.handle ∷ l) n f e
        → IsCalm e
        → is_live t.handle l ≡ true
        → IsTrue (summarize_named vm a (some t) (some c) (true, dst) e)
    unfolding summarize_named
    summarize_named-IsTrue t c dst e h p live =
        let d = delete_first_lem c e h in
        valued_bind IsTrue l n f
          (λ g.
            perform_local vm (call_object_method (some t) g) >>= λ m. summarize_message vm a m dst)
          _
          (find_method_lem vm a l n f (codes "java/lang/Throwable") (codes "getMessage") sig_string
            _ core.throwable (λ x. core.method x _ _ get_message) d.0 (d.1 ∙ p))
          λ g e h p.
            given_bind IsTrue l n f (λ m. summarize_message vm a m dst) _
              (perform_local_found vm (call_object_method (some t) (some g)) e
                (answering.object t g) h p live)
              λ m e o h p. summarize_message-IsTrue m dst e (IsAt-weaken n (omega (arith, o)) h) p

    -- GetExceptionSummary of a live exception, with none pending, answers true when the classes and
    -- methods of the core library that the code names are found, every method called for an object
    -- gives an object, every string its characters and the allocator grants every size.
    pub get_exception_summary-IsTrue :
        (t : Ref) (dst : Chars) (e : Env)
        → IsAt l n f e
        → IsCalm e
        → is_live t.handle l ≡ true
        → IsTrue (get_exception_summary vm a (some t) dst e)
    unfolding get_exception_summary summarize_class
    get_exception_summary-IsTrue t dst e h p live =
        given_bind IsTrue l n f
          (λ c. find_method vm a (codes "java/lang/Class") (codes "getName") sig_string >>= λ g.
            (perform_local vm (call_object_method c g) >>= λ s.
            summarize_class vm a (some t) c s dst))
          _ (perform_local_found vm (get_object_class (some t)) e (core.object_class t) h p live)
          λ c e o h p.
            valued_bind IsTrue (c.handle ∷ l) (suc c.handle) f
              (λ g. perform_local vm (call_object_method (some c) g) >>= λ s.
                summarize_class vm a (some t) (some c) s dst)
              _
              (find_method_lem vm a (c.handle ∷ l) (suc c.handle) f (codes "java/lang/Class")
                (codes "getName") sig_string e core.class (λ x. core.method x _ _ get_name) h p)
              λ g e h p.
                given_bind IsTrue (c.handle ∷ l) (suc c.handle) f
                  (λ s. summarize_class vm a (some t) (some c) s dst) _
                  (perform_local_found vm (call_object_method (some c) (some g)) e
                    (answering.object c g) h p (is_live_first c.handle l))
                  λ s e o' h p.
                    let x =
                      delete_second_lem c s.handle e o' (IsAt-weaken n (omega (arith, o, o')) h) in
                    granted_bind IsTrue (s.handle ∷ l) n f dst (vm.utf_chars s.object)
                      (λ r. summarize_named vm a (some t) (some s) r) _
                      (append_jstring_lem vm a (s.handle ∷ l) n f s dst _ x.0 (x.1 ∙ p)
                        (is_live_first s.handle l))
                      (append_jstring-IsTrue s dst _)
                      (λ e h p. summarize_named-IsTrue t s _ e h p live)

abbrev IsZero : ℕ × Env → Type 0
IsZero r = r.0 ≡ 0

-- The class is found, it has the constructor, and that makes an object.
pub record IsConstructible (vm : Vm) (class_name ctor_sig : List ℕ) (args : List Arg) : Type 0 where
  pub class : IsFound vm (find_class class_name)
  pub constructor : (c : Ref) → IsFound vm (get_method_id (some c) (codes "<init>") ctor_sig)
  pub object : (c : Ref) (m : ℕ) → IsFound vm (new_object (some c) (some m) args)

module _ (vm : Vm) (a : Allocator) (core : IsCore vm) (quiet : IsQuiet vm)
    (throwing : IsThrowing vm) (cn sig : List ℕ) (args : List Arg)
    (made : IsConstructible vm cn sig args) (l : List ℕ) (n f : ℕ) where
  throw_of_class-IsZero :
      (c : Ref) (e : Env)
      → IsAt (c.handle ∷ l) (suc c.handle) f e
      → IsCalm e
      → args_live args l ≡ true
      → IsZero (
          (throw_of_class vm a (some c) cn sig args >>= λ status.
          (delete_local_ref (some c) >> pure status))
            e)
  unfolding throw_of_class construct_and_throw throw_instance throw_done
  throw_of_class-IsZero c e h p live =
      let k : ℕ → Action ℕ = λ status. (delete_local_ref (some c) >> pure status) in
      let m : List ℕ = c.handle ∷ l in
      valued_bind IsZero m (suc c.handle) f (λ g. construct_and_throw vm a c cn sig args g >>= k) _
        (perform_found vm (get_method_id (some c) (codes "<init>") sig) e (made.constructor c) h p
          (is_live_first c.handle l))
        λ g e h p.
          given_bind IsZero m (suc c.handle) f (λ r. throw_instance vm a cn r >>= k) _
            (perform_local_found vm (new_object (some c) (some g) args) e (made.object c g) h p
              (and_intro _ _ (is_live_first c.handle l) (args_live_later args c.handle l live)))
            λ r e o h p.
              let t =
                throw_ref_done vm (r.handle ∷ m) (suc r.handle) f r e throwing h p
                  (is_live_first r.handle m) in
              ap (λ z. (throw_done vm a cn z.0 z.1).0) t.0

  -- ThrowException with live arguments, and any exception pending or none, returns 0 when the
  -- classes and methods of the core library that the code names are found, no method called for an
  -- object raises, the class is found, it has the constructor and that makes an object, and Throw
  -- does not fail.
  pub throw_exception-IsZero :
      (e : Env)
      → IsAt l n f e
      → args_live args l ≡ true
      → IsZero (throw_exception vm a cn sig args e)
  unfolding throw_exception
  throw_exception-IsZero e h live =
      let d = discard_pending_exception_lem vm a core quiet l n f cn e h in
      given_bind IsZero l n f
        (λ c. throw_of_class vm a c cn sig args >>= λ status. (delete_local_ref c >> pure status)) _
        (perform_local_found vm (find_class cn) (discard_pending_exception vm a cn e).1 made.class
          d.0 d.1 refl)
        λ c e o h p. throw_of_class-IsZero c e h p live
