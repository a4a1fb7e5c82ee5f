-- ===== src/Signature/Macros/Rows.antt =====
-- jni_macros.h: which rows the macros make, and that the inferred ones are the checked ones.
use platform_libnativehelper.Signature.Checked.{
  ◌>>=◌, ◌>>◌, Checked, Mode, ok, x_assert, halt, null, spent,
}
use platform_libnativehelper.Base.{
  ℕ, ◌+◌, ◌≡◌, refl, sym, ap, ◌∙◌, ◌↔◌, Bool, true, false, some, List, arith, length,
}
use platform_libnativehelper.Signature.Traits.{
  NativeKind, fast_native, critical_native, normal_native, not_jni,
  normal_jni_calling_convention_parameter,
}
use platform_libnativehelper.Signature.Macros.{
  make_checked_jni_native_method, native_method, native_method_autosig, make_method_old, Program,
  NativeFunction, JniNativeMethod, fast_native_method_autosig, make_jni_native_method,
  fast_native_method, critical_native_method_autosig, critical_native_method,
  make_jni_native_method_autosig, pasted, make_inferred_jni_native_method, found,
  make_jni_fast_native_method, make_jni_fast_native_method_autosig, make_jni_critical_native_method,
  make_jni_critical_native_method_autosig,
}
use platform_libnativehelper.Signature.Params.Rules.{IsNativeKind}
use platform_libnativehelper.Signature.Match.Whole.{IsAccepted, match_iff}
use platform_libnativehelper.Signature.Infer.Agreement.{
  IsInferable, inferred, inferred-IsAccepted, get_string-inferred,
}
use platform_libnativehelper.Signature.Function.RoundTrip.{printed}
use platform_libnativehelper.Signature.Match.{match_jni_descriptor_with_function_type}

ok_value : {A : Type 0} (d : A) → Checked A → A
ok_value d (ok a) = a
ok_value d null = d
ok_value d halt = d
ok_value d spent = d

-- The row is made exactly when the answer is true.
asserted :
    (v : Checked Bool) (row r : JniNativeMethod)
    → ((v >>= λ b. (x_assert b >> ok row)) ≡ ok r) ↔ ((v ≡ ok true) × (r ≡ row))
unfolding ok_value
asserted (ok true) row r = ((λ h. (refl, sym (ap (ok_value row) h))), (λ q. ap ok (sym q.1)))
asserted (ok false) row r = ((λ h. absurd cc), (λ q. absurd (let h = q.0 in cc)))
asserted null row r = ((λ h. absurd cc), (λ q. absurd (let h = q.0 in cc)))
asserted halt row r = ((λ h. absurd cc), (λ q. absurd (let h = q.0 in cc)))
asserted spent row r = ((λ h. absurd cc), (λ q. absurd (let h = q.0 in cc)))

-- For each kind of native method the checked macro makes a row exactly if the function type is one
-- of that kind with a result type that is not const or volatile, the text is that of a signature of
-- the grammar that the parser reads, and every part is accepted for its type, as in match_iff (which
-- is not what the comment of jni_macros.h allows for jobject, jthrowable and jarray); the row is
-- then the one that the unchecked macro of before C++14 makes.
pub make_checked_iff :
    (m : Mode) (k : NativeKind) (name signature : List ℕ) (fn : NativeFunction)
    (r : JniNativeMethod)
    → IsNativeKind k
    → (make_checked_jni_native_method m k name signature fn ≡ ok r)
      ↔ (IsAccepted k fn.ret fn.args signature × (r ≡ make_method_old name signature fn))
unfolding make_checked_jni_native_method make_method_old
make_checked_iff m k name signature fn r h =
    let row = make_method_old name signature fn in
    let i = match_iff m k fn.ret fn.args (length signature + 1) signature (omega arith) h in
    let j =
      asserted
        (match_jni_descriptor_with_function_type m k fn.ret fn.args (length signature + 1)
          signature)
        row r in
    ((λ e. (i.0 (j.0 e).0, (j.0 e).1)), (λ q. j.1 (i.1 q.0, q.1)))

-- The macro with a signature, and the one without, for each kind of native method.
abbrev pub method_macro :
    NativeKind → Mode → Program → List ℕ → List ℕ → List ℕ → Checked JniNativeMethod
method_macro fast_native m p c f s = fast_native_method m p c f s
method_macro critical_native m p c f s = critical_native_method m p c f s
method_macro normal_native m p c f s = native_method m p c f s
method_macro not_jni m p c f s = halt
method_macro normal_jni_calling_convention_parameter m p c f s = halt

abbrev pub autosig_macro : NativeKind → Mode → Program → List ℕ → List ℕ → Checked JniNativeMethod
autosig_macro fast_native m p c f = fast_native_method_autosig m p c f
autosig_macro critical_native m p c f = critical_native_method_autosig m p c f
autosig_macro normal_native m p c f = native_method_autosig m p c f
autosig_macro not_jni m p c f = halt
autosig_macro normal_jni_calling_convention_parameter m p c f = halt

module _ (m : Mode) (k : NativeKind) (name : List ℕ) (fn : NativeFunction) (h : IsNativeKind k)
    (i : IsInferable k fn.ret fn.args) where
  inferred_row :
      make_inferred_jni_native_method m k name fn
      ≡ ok (make_method_old name (printed (inferred k fn.ret fn.args)) fn)
  unfolding make_inferred_jni_native_method make_method_old
  inferred_row =
      ap (λ z. z >>= λ s. ok (record { name = name; signature = s; fn_ptr = fn.address }))
        (get_string-inferred m k fn.ret fn.args h i)

  checked_row :
      make_checked_jni_native_method m k name (printed (inferred k fn.ret fn.args)) fn
      ≡ ok (make_method_old name (printed (inferred k fn.ret fn.args)) fn)
  checked_row =
      (make_checked_iff m k name (printed (inferred k fn.ret fn.args)) fn
          (make_method_old name (printed (inferred k fn.ret fn.args)) fn) h).1
        (inferred-IsAccepted k fn.ret fn.args i, refl)

-- The two macros of one kind, expanded.
expanded :
    (m : Mode) (k : NativeKind) (p : Program) (class_name function_name : List ℕ)
    (fn : NativeFunction)
    → IsNativeKind k
    → p.declared (pasted class_name function_name) ≡ some fn
    → IsInferable k fn.ret fn.args
    → ((found (p.declared (pasted class_name function_name)) >>= λ g.
          make_inferred_jni_native_method m k function_name g)
        ≡ ok (make_method_old function_name (printed (inferred k fn.ret fn.args)) fn))
      × ((found (p.declared (pasted class_name function_name)) >>= λ g.
            make_checked_jni_native_method m k function_name
              (printed (inferred k fn.ret fn.args))
              g)
          ≡ (found (p.declared (pasted class_name function_name)) >>= λ g.
              make_inferred_jni_native_method m k function_name g))
expanded m k p c f fn h d i =
    let a =
      ap (λ z. found z >>= λ g. make_inferred_jni_native_method m k f g) d
      ∙ inferred_row m k f fn h i in
    let b =
      ap
        (λ z. found z >>= λ g.
          make_checked_jni_native_method m k f (printed (inferred k fn.ret fn.args)) g)
        d
      ∙ checked_row m k f fn h i in
    (a, b ∙ sym a)

-- For a declared function of final types, with a result type that is not const or volatile and no
-- argument of type void, the macro without a signature makes, for each kind of native method, the
-- same row as the one with the inferred signature, and that is the row with that signature and a
-- NUL, and the address of the function.
pub autosig_lem :
    (m : Mode) (k : NativeKind) (p : Program) (class_name function_name : List ℕ)
    (fn : NativeFunction)
    → IsNativeKind k
    → p.declared (pasted class_name function_name) ≡ some fn
    → IsInferable k fn.ret fn.args
    → (autosig_macro k m p class_name function_name
        ≡ ok (make_method_old function_name (printed (inferred k fn.ret fn.args)) fn))
      × (method_macro k m p class_name function_name (printed (inferred k fn.ret fn.args))
          ≡ autosig_macro k m p class_name function_name)
unfolding native_method native_method_autosig make_jni_native_method make_jni_native_method_autosig
    fast_native_method fast_native_method_autosig make_jni_fast_native_method
    make_jni_fast_native_method_autosig critical_native_method critical_native_method_autosig
    make_jni_critical_native_method make_jni_critical_native_method_autosig
autosig_lem m fast_native p c f fn h d i = expanded m fast_native p c f fn h d i
autosig_lem m critical_native p c f fn h d i = expanded m critical_native p c f fn h d i
autosig_lem m normal_native p c f fn h d i = expanded m normal_native p c f fn h d i
autosig_lem m not_jni p c f fn h d i = absurd (omega (arith, h))
autosig_lem m normal_jni_calling_convention_parameter p c f fn h d i = absurd (omega (arith, h))
