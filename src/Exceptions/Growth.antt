-- ===== src/Exceptions/Growth.antt =====
-- JNIHelp.c: no function takes back a call that was not allowed.
use platform_libnativehelper.Jni.{
  ◌>>=◌, ◌>>◌, pure, Vm, Arg, Ref, ref_arg, delete_local_ref, get_object_class, perform_local,
  call_object_method, release_string_utf_chars, Env, string_utf_chars, remove,
}
use platform_libnativehelper.Base.{
  refl, ℕ, Bool, true, false, Option, none, some, List, ◌∷◌, arith, codes, subst, fun_ext, ◌≡◌, ap,
  ◌∙◌,
}
use platform_libnativehelper.Text.{Allocator}
use platform_libnativehelper.Exceptions.{
  find_method, append, summarize_named, append_message, get_exception_summary, message_failed,
  assign, append_chars, summarize_class, append_jstring, summarize_message, sig_string,
}
use platform_libnativehelper.Text.Abstract.{Chars}
use platform_libnativehelper.Jni.Growth.{
  IsGrowing, bind_grows, perform_local_grows, pure_grows, growing, read_or, utf_chars_grows,
  remove_first,
}
use platform_libnativehelper.Exceptions.Throwing.{
  discard_occurred, throw_instance, throw_exception, throw_done, message_created,
  construct_and_throw, discard_pending_exception, throw_of_class,
}

module _ (vm : Vm) (a : Allocator) where
  append_grows : (text : List ℕ) (dst : Chars) → IsGrowing (append vm a text dst)
  unfolding append
  append_grows text dst = record { grows = λ e. omega arith; keeps = λ e. refl }

  find_method_grows : (c m d : List ℕ) → IsGrowing (find_method vm a c m d)
  unfolding find_method
  find_method_grows c m d = search growing depth 9

  append_chars-read_or :
      (x : Option Ref) (dst : Chars) (o : Option ℕ) (e : Env)
      → read_or (λ u. append_chars vm a x (some u) dst) (pure (false, dst)) o e
        ≡ append_chars vm a x o dst e
  unfolding append_chars
  append_chars-read_or x dst none e = refl
  append_chars-read_or x dst (some u) e = refl

  append_jstring_grows : (x : Option Ref) (dst : Chars) → IsGrowing (append_jstring vm a x dst)
  unfolding append_jstring append_chars append release_string_utf_chars
  append_jstring_grows x dst =
      subst IsGrowing
        (fun_ext
          λ e. append_chars-read_or x dst (string_utf_chars vm x e).0 (string_utf_chars vm x e).1)
        (utf_chars_grows vm x (λ u. append_chars vm a x (some u) dst) (pure (false, dst))
          (λ u e. omega arith) (λ u e xs h. ap (remove u) h ∙ remove_first u xs)
          (pure_grows (false, dst)))

  assign_grows : (text : List ℕ) → IsGrowing (assign vm a text)
  unfolding assign
  assign_grows text = append_grows text none

  append_message_grows : (x : Option Ref) (r : Bool × Chars) → IsGrowing (append_message vm a x r)
  unfolding append_message
  append_message_grows x (true, d) = append_jstring_grows x d
  append_message_grows x (false, d) = pure_grows (false, d)

  message_failed_grows : (r : Bool × Chars) → IsGrowing (message_failed vm a r)
  unfolding message_failed
  message_failed_grows (true, d) = pure_grows (true, d)
  message_failed_grows (false, d) = search (growing, append_grows) depth 9

  summarize_message_grows : (x : Option Ref) (d : Chars) → IsGrowing (summarize_message vm a x d)
  unfolding summarize_message
  summarize_message_grows none d = pure_grows (true, d)
  summarize_message_grows (some x) d =
      search (growing, append_grows, append_message_grows, message_failed_grows) depth 9

  summarize_named_grows :
      (t c : Option Ref) (r : Bool × Chars) → IsGrowing (summarize_named vm a t c r)
  unfolding summarize_named
  summarize_named_grows t c (true, d) =
      search (growing, find_method_grows, summarize_message_grows) depth 9
  summarize_named_grows t c (false, d) = search (growing, assign_grows) depth 9

  summarize_class_grows :
      (t c x : Option Ref) (d : Chars) → IsGrowing (summarize_class vm a t c x d)
  unfolding summarize_class
  summarize_class_grows t c none d = search (growing, assign_grows) depth 9
  summarize_class_grows t c (some x) d =
      search (growing, append_jstring_grows, summarize_named_grows) depth 9

  -- What follows the class of the exception.
  pub named_grows :
      (t c : Option Ref) (d : Chars)
      → IsGrowing (
          find_method vm a (codes "java/lang/Class") (codes "getName") sig_string >>= λ g.
          (perform_local vm (call_object_method c g) >>= λ s. summarize_class vm a t c s d))
  named_grows t c d = search (growing, find_method_grows, summarize_class_grows) depth 9

  pub get_exception_summary_grows :
      (t : Option Ref) (d : Chars) → IsGrowing (get_exception_summary vm a t d)
  unfolding get_exception_summary
  get_exception_summary_grows t d =
      bind_grows (perform_local_grows vm (get_object_class t)) λ c. named_grows t c d

  discard_occurred_grows : (x : Option Ref) (c : List ℕ) → IsGrowing (discard_occurred vm a x c)
  unfolding discard_occurred
  discard_occurred_grows none c = pure_grows tt
  discard_occurred_grows (some x) c = search (growing, get_exception_summary_grows) depth 9

  throw_done_grows : (c : List ℕ) (b : Bool) → IsGrowing (throw_done vm a c b)
  unfolding throw_done
  throw_done_grows c true = pure_grows 0
  throw_done_grows c false = search growing depth 9

  throw_instance_grows : (c : List ℕ) (x : Option Ref) → IsGrowing (throw_instance vm a c x)
  unfolding throw_instance
  throw_instance_grows c none = search growing depth 9
  throw_instance_grows c (some x) = search (growing, throw_done_grows) depth 9

  construct_and_throw_grows :
      (r : Ref) (c s : List ℕ) (args : List Arg) (x : Option ℕ)
      → IsGrowing (construct_and_throw vm a r c s args x)
  unfolding construct_and_throw
  construct_and_throw_grows r c s args none = search growing depth 9
  construct_and_throw_grows r c s args (some x) = search (growing, throw_instance_grows) depth 9

  throw_of_class_grows :
      (x : Option Ref) (c s : List ℕ) (args : List Arg) → IsGrowing (throw_of_class vm a x c s args)
  unfolding throw_of_class
  throw_of_class_grows none c s args = search growing depth 9
  throw_of_class_grows (some x) c s args = search (growing, construct_and_throw_grows) depth 9

  discard_grows : (c : List ℕ) → IsGrowing (discard_pending_exception vm a c)
  unfolding discard_pending_exception
  discard_grows c = search (growing, discard_occurred_grows) depth 9

  pub throw_exception_grows :
      (c s : List ℕ) (args : List Arg) → IsGrowing (throw_exception vm a c s args)
  unfolding throw_exception
  throw_exception_grows c s args = search (growing, discard_grows, throw_of_class_grows) depth 9

  message_created_grows : (x : Option Ref) → IsGrowing (message_created vm a x)
  unfolding message_created
  message_created_grows none = search growing depth 9
  message_created_grows (some x) = pure_grows (some x)

  -- What follows the creation of the message.
  pub throw_created_grows :
      (c s : List ℕ) (more : List Arg) (x : Option Ref)
      → IsGrowing (
          message_created vm a x >>= λ detail.
          (throw_exception vm a c s (ref_arg detail ∷ more) >>= λ status.
          (delete_local_ref detail >> pure status)))
  throw_created_grows c s more x =
      search (growing, message_created_grows, throw_exception_grows) depth 9
