-- ===== src/Signature/Function/RoundTrip.antt =====
-- parse_signature_as_list against the grammar of function descriptors: it reads back what a
-- descriptor prints as, and refuses every other view.
use platform_libnativehelper.Base.{
  ℕ, zero, suc, ◌+◌, ◌≤◌, ◌≡◌, refl, sym, ap, ◌∙◌, subst, ◌≢◌, ◌↔◌, inl, inr, true, false, List, [],
  ◌∷◌, ◌++◌, append_assoc, append-nil, arith, ◌==◌, Bool-cases, length, length-append, All,
}
use platform_libnativehelper.Signature.Checked.{
  Mode, Checked, ok, parse_failure, parse_failure->>=, parse_failure-ne-ok,
}
use platform_libnativehelper.Signature.View.{StringView, substr_from-append}
use platform_libnativehelper.Signature.Function.{
  finish, parse_signature_as_list, loop, JniSignatureDescriptor, initial, parsing_parameters,
  parsing_return_type,
}
use platform_libnativehelper.Signature.Descriptor.Grammar.{
  IsFieldType, IsType, IsType-nonempty, primitive, IsFieldType-nonempty, field,
}
use platform_libnativehelper.Signature.Function.Outcomes.{
  joined, Listed, descriptor, close_round, return_round, listed, parameters-Listed, not_listed,
  parameter_round,
}
use platform_libnativehelper.Signature.Descriptor.{parse_single_type_descriptor}
use platform_libnativehelper.Signature.Descriptor.Outcomes.{parse_single-append}

-- The descriptor as text.
abbrev pub printed : JniSignatureDescriptor → StringView
printed d = b'(' ∷ joined d.args ++ b')' ∷ d.ret

-- The method types of the JNI specification, chapter 3.
pub record IsSignature (d : JniSignatureDescriptor) : Type 0 where
  pub parameters : All IsFieldType d.args
  pub return : IsType true d.ret

start-IsFieldType :
    {t : StringView} (c : ℕ) (u : StringView) → IsFieldType t → t ≡ c ∷ u → (c == b')') ≡ false
start-IsFieldType c u (primitive x p e) h = ground arith
start-IsFieldType c u (IsFieldType.object x name p ps e) h = ground arith
start-IsFieldType c u (IsFieldType.array d e) h = ground arith

return_all :
    (m : Mode) (max f : ℕ) (t : StringView) (args : List StringView) (ret : StringView)
    → IsType true t
    → length t ≤ f
    → loop m max f parsing_return_type t args ret ≡ ok (descriptor args t)
unfolding finish loop
return_all m max f [] args ret d h = absurd (omega (arith, IsType-nonempty d))
return_all m max zero (c ∷ t) args ret d h = absurd (omega arith)
return_all m max (suc f) (c ∷ t) args ret d h =
    return_round m max f c t (c ∷ t) [] args ret (omega arith) (
      ap (λ s. parse_single_type_descriptor m s true) (sym (append-nil (c ∷ t)))
      ∙ parse_single-append m true (c ∷ t) [] d)

parameters-All :
    (m : Mode) (max f : ℕ) (ts : List StringView) (t : StringView) (args : List StringView)
    (ret : StringView)
    → All IsFieldType ts
    → IsType true t
    → length (joined ts ++ b')' ∷ t) ≤ f
    → length args + length ts ≤ max
    → loop m max f parsing_parameters (joined ts ++ b')' ∷ t) args ret
      ≡ ok (descriptor (args ++ ts) t)
parameters-All m max zero [] t args ret ds d h k = absurd (omega arith)
parameters-All m max (suc f) [] t args ret ds d h k =
    close_round m max f t args ret
    ∙ return_all m max f t args ret d (omega arith)
    ∙ ap (λ a. ok (descriptor a t)) (sym (append-nil args))
parameters-All m max f ([] ∷ ts) t args ret ds d h k =
    absurd (omega (arith, IsFieldType-nonempty ds.0))
parameters-All m max zero ((c ∷ u) ∷ ts) t args ret ds d h k = absurd (omega arith)
parameters-All m max (suc f) ((c ∷ u) ∷ ts) t args ret ds d h k =
    let rest : StringView = joined ts ++ b')' ∷ t in
    ap (λ s. loop m max (suc f) parsing_parameters s args ret)
      (append_assoc (c ∷ u) (joined ts) (b')' ∷ t))
    ∙ parameter_round m max f c (u ++ rest) (c ∷ u) rest args ret (start-IsFieldType c u ds.0 refl)
        (omega arith) (omega arith) (parse_single-append m false (c ∷ u) rest (field ds.0))
    ∙ parameters-All m max f ts t (args ++ (c ∷ u) ∷ []) ret ds.1 d
        (omega (
          arith,
          length-append (u ++ joined ts) (b')' ∷ t),
          length-append u (joined ts),
          length-append (joined ts) (b')' ∷ t),
        ))
        (omega (arith, length-append args ((c ∷ u) ∷ [])))
    ∙ ap (λ a. ok (descriptor a t)) (append_assoc args ((c ∷ u) ∷ []) ts)

open_round :
    (m : Mode) (max f : ℕ) (s : StringView)
    → loop m max (suc f) initial (b'(' ∷ s) [] [] ≡ loop m max f parsing_parameters s [] []
unfolding loop
open_round m max f s = rw (substr_from-append (b'(' ∷ []) s)

-- A descriptor of the grammar that the parser reads is read back from its text, into any vector that
-- holds its parameters.
pub parse-printed :
    (m : Mode) (max : ℕ) (d : JniSignatureDescriptor)
    → IsSignature d
    → length d.args ≤ max
    → parse_signature_as_list m max (printed d) ≡ ok d
unfolding parse_signature_as_list
parse-printed m max d w h =
    open_round m max _ _
    ∙ parameters-All m max _ d.args d.ret [] [] w.parameters w.return (omega arith) (omega arith)

-- The text of a descriptor, or a failed parse.
pub data Outcome (m : Mode) (s : StringView) (r : Checked JniSignatureDescriptor) : Type 0 where
  read : (d : JniSignatureDescriptor) → IsSignature d → s ≡ printed d → r ≡ ok d → Outcome m s r
  refused : r ≡ parse_failure m → Outcome m s r

Outcome-open :
    (m : Mode) (s : StringView) (r r' : Checked JniSignatureDescriptor)
    → r ≡ r'
    → Listed m s [] r'
    → Outcome m (b'(' ∷ s) r
Outcome-open m s r r' e (listed ts t ds d g k) =
    read (descriptor ts t) (record { parameters = ds; return = d }) (ap (◌∷◌ b'(') g) (e ∙ k)
Outcome-open m s r r' e (not_listed k) = refused (e ∙ k)

pub parse-Outcome :
    (m : Mode) (max : ℕ) (s : StringView)
    → length s ≤ max
    → Outcome m s (parse_signature_as_list m max s)
unfolding parse_signature_as_list loop finish
parse-Outcome m max [] h = refused refl
parse-Outcome m max (c ∷ s) h = elim (Bool-cases (c == b'(')) [
  | inl e ↦
      let q : c ≡ b'(' = ground arith in
      rw q (
        Outcome-open m s _ _ (open_round m max (length s) s)
          (parameters-Listed m max (length s) s [] [] (omega arith) (omega arith)))
  | inr n ↦ refused (rw n (parse_failure->>= m _))
]

length-joined-le : (ts : List StringView) → All IsFieldType ts → length ts ≤ length (joined ts)
length-joined-le [] ds = omega arith
length-joined-le (t ∷ ts) ds =
    omega (arith, IsFieldType-nonempty ds.0, length-append t (joined ts), length-joined-le ts ds.1)

length-args-le : (d : JniSignatureDescriptor) → IsSignature d → length d.args ≤ length (printed d)
length-args-le d w =
    omega
      (arith, length-joined-le d.args w.parameters, length-append (joined d.args) (b')' ∷ d.ret))

ok_of_read :
    (m : Mode) (s : StringView) {r : Checked JniSignatureDescriptor} (d : JniSignatureDescriptor)
    → Outcome m s r
    → r ≡ ok d
    → IsSignature d × (s ≡ printed d)
ok_of_read m s d (read d' w e g) h =
    let q : d' ≡ d = cc in (subst IsSignature q w, e ∙ ap printed q)
ok_of_read m s d (refused g) h = absurd (parse_failure-ne-ok m d (sym g ∙ h))

-- With a vector of as many nodes as the text has characters, the signature parser returns a
-- descriptor exactly if the text is that of the descriptor and the descriptor is one of this
-- grammar: the type signatures of the JNI specification, but with any nonempty text without ( ) [ ;
-- for a class name, whether it is a name of a class or not.
pub parse_iff :
    (m : Mode) (max : ℕ) (s : StringView) (d : JniSignatureDescriptor)
    → length s ≤ max
    → (parse_signature_as_list m max s ≡ ok d) ↔ (IsSignature d × (s ≡ printed d))
parse_iff m max s d h = (
  ok_of_read m s d (parse-Outcome m max s h),
  λ (w, e).
      ap (parse_signature_as_list m max) e
      ∙ parse-printed m max d w (omega (arith, length-args-le d w, ap length e)),
)

refused_of :
    (m : Mode) (s : StringView) {r : Checked JniSignatureDescriptor}
    → Outcome m s r
    → ((d : JniSignatureDescriptor) → IsSignature d → s ≢ printed d)
    → r ≡ parse_failure m
refused_of m s (read d w e g) h = absurd (h d w e)
refused_of m s (refused g) h = g

-- With such a vector the parser fails as PARSE_FAILURE does exactly on the texts of no descriptor of
-- that grammar; so no other assertion fails, no push_back overflows and the loop ends.
pub parse_refused_iff :
    (m : Mode) (max : ℕ) (s : StringView)
    → length s ≤ max
    → (parse_signature_as_list m max s ≡ parse_failure m)
      ↔ ((d : JniSignatureDescriptor) → IsSignature d → s ≢ printed d)
parse_refused_iff m max s h = (
  λ e d w g. parse_failure-ne-ok m d (sym e ∙ (parse_iff m max s d h).1 (w, g)),
  refused_of m s (parse-Outcome m max s h),
)
