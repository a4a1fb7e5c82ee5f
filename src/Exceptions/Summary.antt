-- ===== src/Exceptions/Summary.antt =====
-- JNIHelp.c: the summary of an exception leaves the environment as it was.
use platform_libnativehelper.Jni.{
  ◌>>=◌, Vm, Ref, Env, call_object_method, get_object_class, is_live, perform_local, value_of,
}
use platform_libnativehelper.Base.{
  ℕ, suc, ◌<◌, ◌≡◌, refl, ap, ◌∙◌, ◌⊎◌, inl, inr, Bool, true, false, Option, none, some, List, ◌∷◌,
  ◌++◌, arith, codes, subst,
}
use platform_libnativehelper.Exceptions.{
  sig_string, find_method, summarize_message, summarize_named, summarize_class,
  get_exception_summary, assign,
}
use platform_libnativehelper.Text.{Allocator}
use platform_libnativehelper.Text.Abstract.{Chars, chars}
use platform_libnativehelper.Exceptions.Calls.{
  append_At, IsQuiet, IsCore, appended_bind, append_jstring_lem, perform_local-IsCalm, get_message,
  get_name, IsRaised, IsQuiet-IsCalm,
}
use platform_libnativehelper.Jni.Rules.{
  IsAt, IsCalm, is_live_first, exception_clear_lem, delete_second_lem, delete_first_lem,
  IsAt-weaken,
}
use platform_libnativehelper.Jni.Binds.{found_bind, object_bind}
use platform_libnativehelper.Exceptions.Sources.{
  IsNameOf, IsSummary, IsMessageOf, method_bind, IsMethod,
}
use platform_libnativehelper.Exceptions.Growth.{get_exception_summary_grows}
use platform_libnativehelper.Exceptions.Message.{IsMessage, summarize_message_lem}

-- What a summary comes to: the references of before, no fault, no exception unless a method that was
-- called raised one, and the text unless it answers false.
pub record IsSummarized (vm : Vm) (t : Ref) (l : List ℕ) (n f : ℕ) (dst : Chars)
    (r : (Bool × Chars) × Env) : Type 0 where
  pub at : IsAt l n f r.1
  pub calm : IsCalm r.1 ⊎ IsRaised vm
  pub text : (r.0.0 ≡ false) ⊎ IsSummary vm t dst r.0.1

module _ (vm : Vm) (a : Allocator) (core : IsCore vm) (l : List ℕ) (n f : ℕ) (dst : Chars)
    (t : Ref) where
  -- No text is promised when the result is false.
  failed_summary :
      (d : Chars) (e : Env) → IsAt l n f e → IsCalm e → IsSummarized vm t l n f dst ((false, d), e)
  failed_summary d e h p = record { at = h; calm = inl p; text = inl refl }

  message_summary :
      (name : ℕ) (m : Ref) (d : Chars) (r : (Bool × Chars) × Env)
      → IsNameOf vm t name
      → IsMessageOf vm t (some m.object)
      → d ≡ some (chars dst ++ vm.utf_chars name)
      → IsMessage l n f d (vm.utf_chars m.object) r
      → IsSummarized vm t l n f dst r
  message_summary name m d ((false, u), e) of mo w h = failed_summary u e h.0 h.1
  message_summary name m d ((true, u), e) of mo w h = record {
    at = h.0;
    calm = inl h.1;
    text = inr (record {
      name = name;
      is_name = of;
      message = some m.object;
      is_message = mo;
      is_text = h.2 refl ∙ ap (λ z. some (chars z ++ codes ": " ++ vm.utf_chars m.object)) w;
    });
  }

  summarize_thrown :
      (name g : ℕ) (e : Env)
      → IsNameOf vm t name
      → IsMethod vm (codes "java/lang/Throwable") (codes "getMessage") sig_string g
      → IsAt l n f e
      → IsCalm e
      → is_live t.handle l ≡ true
      → IsSummarized vm t l n f dst (
          (perform_local vm (call_object_method (some t) (some g)) >>= λ m.
          summarize_message vm a m (some (chars dst ++ vm.utf_chars name)))
            e)
  unfolding summarize_message
  summarize_thrown name g e of method h p live =
      object_bind (IsSummarized vm t l n f dst) l n f vm (call_object_method (some t) (some g)) e h
        p live (λ x. summarize_message vm a x (some (chars dst ++ vm.utf_chars name)))
        (λ c e w o h p.
          message_summary name c _ _ of
            (record {
              get_message = g;
              is_method = method;
              message_calls = _;
              is_message = ap value_of w;
            })
            refl (summarize_message_lem vm a l n f c _ e (IsAt-weaken n (omega (arith, o)) h) p))
        (λ e' v h w. record {
          at = h;
          calm =
              subst (λ z. IsCalm z ⊎ IsRaised vm) w (perform_local-IsCalm vm (some t) (some g) e p);
          text = inr (record {
            name = name;
            is_name = of;
            message = none;
            is_message = record {
              get_message = g;
              is_method = method;
              message_calls = _;
              is_message = v;
            };
            is_text = refl;
          });
        })

  summarize_named_lem :
      (c : Ref) (e : Env)
      → IsNameOf vm t c.object
      → IsAt (c.handle ∷ l) n f e
      → IsCalm e
      → is_live t.handle l ≡ true
      → IsSummarized vm t l n f dst (
          summarize_named vm a
            (some t)
            (some c)
            (true, some (chars dst ++ vm.utf_chars c.object))
            e)
  unfolding summarize_named
  summarize_named_lem c e of h p live =
      let d = delete_first_lem c e h in
      method_bind (IsSummarized vm t l n f dst) vm a l n f (codes "java/lang/Throwable")
        (codes "getMessage") sig_string _ d.0 (d.1 ∙ p)
        (λ g. perform_local vm (call_object_method (some t) g) >>= λ m.
          summarize_message vm a m (some (chars dst ++ vm.utf_chars c.object)))
        core.throwable (λ x. core.method x _ _ get_message)
        (λ g e method h p. summarize_thrown c.object g e of method h p live)

  unnamed_lem :
      (u : Option Ref) (c : Ref) (d : Chars) (e : Env)
      → IsAt (c.handle ∷ l) n f e
      → IsSummarized vm t l n f dst (summarize_named vm a u (some c) (false, d) e)
  unfolding summarize_named assign
  unnamed_lem u c d e h =
      let q = exception_clear_lem _ (append_At vm a (c.handle ∷ l) n f _ none e h) in
      let x = delete_first_lem c _ q.0 in failed_summary _ _ x.0 (x.1 ∙ q.1)

  classless_lem :
      (u : Option Ref) (c : Ref) (e : Env)
      → IsAt (c.handle ∷ l) n f e
      → IsSummarized vm t l n f dst (summarize_class vm a u (some c) none dst e)
  unfolding summarize_class assign
  classless_lem u c e h =
      let q = exception_clear_lem _ (append_At vm a (c.handle ∷ l) n f _ none e h) in
      let x = delete_first_lem c _ q.0 in failed_summary _ _ x.0 (x.1 ∙ q.1)

  summarize_class_lem :
      (c s : Ref) (e : Env)
      → IsNameOf vm t s.object
      → c.handle < s.handle
      → IsAt (s.handle ∷ (c.handle ∷ l)) n f e
      → IsCalm e
      → is_live t.handle l ≡ true
      → IsSummarized vm t l n f dst (summarize_class vm a (some t) (some c) (some s) dst e)
  unfolding summarize_class
  summarize_class_lem c s e of o h p live =
      let x = delete_second_lem c s.handle e o h in
      appended_bind (IsSummarized vm t l n f dst) (s.handle ∷ l) n f dst (vm.utf_chars s.object)
        (λ r. summarize_named vm a (some t) (some s) r) _
        (append_jstring_lem vm a (s.handle ∷ l) n f s dst _ x.0 (x.1 ∙ p)
          (is_live_first s.handle l))
        (λ e h p. summarize_named_lem s e of h p live) (λ d e h. unnamed_lem (some t) s d e h)

  summarized :
      (e : Env)
      → IsAt l n f e
      → IsCalm e
      → is_live t.handle l ≡ true
      → IsSummarized vm t l n f dst (get_exception_summary vm a (some t) dst e)
  unfolding get_exception_summary
  summarized e h p live =
      let Q = IsSummarized vm t l n f dst in
      found_bind Q l n f vm (get_object_class (some t)) e h p live
        (λ c. find_method vm a (codes "java/lang/Class") (codes "getName") sig_string >>= λ g.
          (perform_local vm (call_object_method c g) >>= λ s.
          summarize_class vm a (some t) c s dst))
        (core.object_class t)
        λ c e v o h p.
          method_bind Q vm a (c.handle ∷ l) (suc c.handle) f (codes "java/lang/Class")
            (codes "getName") sig_string e h p
            (λ g. perform_local vm (call_object_method (some c) g) >>= λ s.
              summarize_class vm a (some t) (some c) s dst)
            core.class (λ x. core.method x _ _ get_name)
            λ g e method h p.
              object_bind Q (c.handle ∷ l) (suc c.handle) f vm
                (call_object_method (some c) (some g)) e h p (is_live_first c.handle l)
                (λ s. summarize_class vm a (some t) (some c) s dst)
                (λ s e w o' h p.
                  summarize_class_lem c s e
                    (record {
                      class = c;
                      class_calls = _;
                      is_class = v;
                      get_name = g;
                      is_method = method;
                      name_calls = _;
                      is_name = w;
                    })
                    o' (IsAt-weaken n (omega (arith, o, o')) h) p live)
                (λ e v' h w. classless_lem (some t) c e (IsAt-weaken n (omega (arith, o)) h))

  -- GetExceptionSummary of a live exception, with none pending, when the classes and methods of the
  -- core library that the code names are found: every local reference that it makes is deleted once
  -- and no other, no call is one that the JNI specification forbids, no exception is left unless a
  -- method called for an object raised one, and the UTF characters that are held are those of
  -- before; and where it answers true the string holds what it held before, the text of the object
  -- that java.lang.Class.getName gave for the class of the exception, and, if
  -- java.lang.Throwable.getMessage gave an object for the exception, a colon and its text.
  pub get_exception_summary_lem :
      (e : Env)
      → IsAt l n f e
      → IsCalm e
      → is_live t.handle l ≡ true
      → IsSummarized vm t l n f dst (get_exception_summary vm a (some t) dst e)
        × ((get_exception_summary vm a (some t) dst e).1.held ≡ e.held)
  get_exception_summary_lem e h p live =
      (summarized e h p live, (get_exception_summary_grows vm a (some t) dst).keeps e)

-- A summary is calm when no method raises.
pub IsSummarized-IsCalm :
    {vm : Vm} {t : Ref} {l : List ℕ} {n f : ℕ} {dst : Chars} {r : (Bool × Chars) × Env}
    → IsQuiet vm
    → IsSummarized vm t l n f dst r
    → IsCalm r.1
IsSummarized-IsCalm {vm = vm} {r = r} q s = IsQuiet-IsCalm vm r.1 q s.calm
