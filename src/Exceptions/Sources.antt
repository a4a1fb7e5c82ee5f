-- ===== src/Exceptions/Sources.antt =====
-- JNIHelp.c: where the texts of the summary of an exception come from.
use platform_libnativehelper.Jni.{
  ◌>>=◌, ◌>>◌, pure, Action, Env, Vm, Ref, JniCall, value_of, find_class, get_object_class, result,
  call_object_method, get_method_id, perform, delete_local_ref,
}
use platform_libnativehelper.Base.{
  ℕ, ◌≡◌, refl, ◌∙◌, Option, none, some, List, ◌∷◌, ◌++◌, arith, codes,
}
use platform_libnativehelper.Text.{Allocator}
use platform_libnativehelper.Text.Abstract.{Chars, chars}
use platform_libnativehelper.Exceptions.{sig_string, find_method}
use platform_libnativehelper.Jni.Rules.{IsAt, IsCalm, IsAt-weaken, is_live_first, delete_first_lem}
use platform_libnativehelper.Jni.Found.{IsFound}
use platform_libnativehelper.Jni.Binds.{found_bind, found_value_bind}

-- The virtual machine gave this method for the name and the signature, in the class that it found by
-- its name.
pub record IsMethod (vm : Vm) (class_name method_name descriptor : List ℕ) (m : ℕ) : Type 0 where
  pub clazz : Ref
  pub class_calls : List JniCall
  pub found : vm.answer class_calls (find_class class_name) ≡ result clazz.object
  pub method_calls : List JniCall
  pub method : vm.answer method_calls (get_method_id (some clazz) method_name descriptor) ≡ result m

-- The object that Class.getName gave for the class of the exception.
pub record IsNameOf (vm : Vm) (t : Ref) (name : ℕ) : Type 0 where
  pub class : Ref
  pub class_calls : List JniCall
  pub is_class : vm.answer class_calls (get_object_class (some t)) ≡ result class.object
  pub get_name : ℕ
  pub is_method : IsMethod vm (codes "java/lang/Class") (codes "getName") sig_string get_name
  pub name_calls : List JniCall
  pub is_name : vm.answer name_calls (call_object_method (some class) (some get_name)) ≡ result name

-- The object that Throwable.getMessage gave for the exception, or none.
pub record IsMessageOf (vm : Vm) (t : Ref) (message : Option ℕ) : Type 0 where
  pub get_message : ℕ
  pub is_method :
      IsMethod vm (codes "java/lang/Throwable") (codes "getMessage") sig_string get_message
  pub message_calls : List JniCall
  pub is_message :
      value_of (vm.answer message_calls (call_object_method (some t) (some get_message))) ≡ message

-- The text behind the string: the class name, and behind a colon the message if there is one.
abbrev pub summary_text : Vm → Chars → ℕ → Option ℕ → List ℕ
summary_text vm dst name none = chars dst ++ vm.utf_chars name
summary_text vm dst name (some message) =
    chars dst ++ vm.utf_chars name ++ codes ": " ++ vm.utf_chars message

-- The string with the text of the summary of an exception.
pub record IsSummary (vm : Vm) (t : Ref) (dst d : Chars) : Type 0 where
  pub name : ℕ
  pub is_name : IsNameOf vm t name
  pub message : Option ℕ
  pub is_message : IsMessageOf vm t message
  pub is_text : d ≡ some (summary_text vm dst name message)

-- What follows the look up of a method.
module _ {B : Type 0} (Q : B × Env → Type 0) (vm : Vm) (a : Allocator) (l : List ℕ) (n f : ℕ)
    (cn mn d : List ℕ) (e : Env) (h : IsAt l n f e) (p : IsCalm e) where
  pub method_bind :
      (k : Option ℕ → Action B)
      → IsFound vm (find_class cn)
      → ((c : Ref) → IsFound vm (get_method_id (some c) mn d))
      → ((m : ℕ) (e' : Env) → IsMethod vm cn mn d m → IsAt l n f e' → IsCalm e' → Q (k (some m) e'))
      → Q (k (find_method vm a cn mn d e).0 (find_method vm a cn mn d e).1)
  unfolding find_method
  method_bind k class method g =
      found_bind Q l n f vm (find_class cn) e h p refl
        (λ c. (perform vm (get_method_id c mn d) >>= λ m. (delete_local_ref c >> pure m)) >>= k)
        class
        λ c e w o h p.
          found_value_bind Q (c.handle ∷ l) n f vm (get_method_id (some c) mn d) e
            (IsAt-weaken n (omega (arith, o)) h) p (is_live_first c.handle l)
            (λ m. (delete_local_ref (some c) >> pure m) >>= k) (method c)
            λ m e v h p.
              let x = delete_first_lem c e h in
              g m _ (record { clazz = c; class_calls = _; found = w; method_calls = _; method = v })
                x.0 (x.1 ∙ p)
