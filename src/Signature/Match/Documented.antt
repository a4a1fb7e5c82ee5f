-- ===== src/Signature/Match/Documented.antt =====
-- The check of a type descriptor beside the table in the comment of jni_macros.h.
use platform_libnativehelper.Base.{
  ◌≡◌, refl, sym, ap, ◌∙◌, inl, inr, Bool, true, false, not, ◌&&◌, ◌||◌, Bool-cases, false≢true,
  codes,
}
use platform_libnativehelper.Signature.View.{StringView, view_eq, view_eq_iff}
use platform_libnativehelper.Signature.Match.Similar.{starts_with}
use platform_libnativehelper.Signature.Match.Table.{
  is_strong_class, is_match, is_divergent, is_documented,
}
use platform_libnativehelper.Signature.Traits.{JniType, jobject, jthrowable, jarray}

abbrev pub flipped : Bool → Bool → Bool
flipped true b = not b
flipped false b = b

starts_equal :
    (d e : StringView)
    → starts_with (codes "L") e ≡ true
    → view_eq d e ≡ true
    → starts_with (codes "L") d ≡ true
starts_equal d e h q = ap (starts_with (codes "L")) ((view_eq_iff d e).0 q) ∙ h

throwable_class :
    (d : StringView) → view_eq d (codes "Ljava/lang/Throwable;") ≡ true → is_strong_class d ≡ false
throwable_class d q =
    ap is_strong_class ((view_eq_iff d (codes "Ljava/lang/Throwable;")).0 q)
    ∙ (unfold view_eq in refl)

strong_starts : (d : StringView) → is_strong_class d ≡ true → starts_with (codes "L") d ≡ true
strong_starts d h = elim (Bool-cases (view_eq d (codes "Ljava/lang/Class;"))) [
  | inl q ↦ starts_equal d (codes "Ljava/lang/Class;") refl q
  | inr q ↦
      starts_equal d (codes "Ljava/lang/String;") refl
        (sym (ap (λ b. b || view_eq d (codes "Ljava/lang/String;")) q) ∙ h)
]

jobject_divergent :
    (a c s t : Bool)
    → (t ≡ true → a ≡ true)
    → (t ≡ true → (c || s) ≡ false)
    → (a && not (c || s || t)) ≡ flipped t (a && not (c || s))
jobject_divergent true true s false f g = refl
jobject_divergent true false true false f g = refl
jobject_divergent true false false false f g = refl
jobject_divergent true true s true f g = absurd (false≢true (sym (g refl)))
jobject_divergent true false true true f g = absurd (false≢true (sym (g refl)))
jobject_divergent true false false true f g = refl
jobject_divergent false c s false f g = refl
jobject_divergent false c s true f g = absurd (false≢true (f refl))

jthrowable_divergent : (a u : Bool) → (u ≡ true → a ≡ true) → a ≡ flipped u (a && not u)
jthrowable_divergent true true f = refl
jthrowable_divergent true false f = refl
jthrowable_divergent false false f = refl
jthrowable_divergent false true f = absurd (false≢true (f refl))

jarray_divergent : (a : Bool) → a ≡ flipped a false
jarray_divergent true = refl
jarray_divergent false = refl

pub is_match-flipped :
    (d : StringView) (t : JniType) → is_match d t ≡ flipped (is_divergent d t) (is_documented d t)
is_match-flipped d jobject =
    jobject_divergent (starts_with (codes "L") d) (view_eq d (codes "Ljava/lang/Class;"))
      (view_eq d (codes "Ljava/lang/String;")) (view_eq d (codes "Ljava/lang/Throwable;"))
      (starts_equal d (codes "Ljava/lang/Throwable;") refl) (throwable_class d)
is_match-flipped d jthrowable =
    jthrowable_divergent (starts_with (codes "L") d) (is_strong_class d) (strong_starts d)
is_match-flipped d jarray = jarray_divergent (starts_with (codes "[") d)
is_match-flipped d _ = refl
