-- ===== src/Signature/Function/Outcomes.antt =====
-- What the loop of parse_signature_as_list returns, state by state.
use platform_libnativehelper.Base.{
  ℕ, zero, suc, ◌+◌, ◌≤◌, ◌≡◌, refl, sym, ap, ◌∙◌, inl, inr, true, false, List, [], ◌∷◌, ◌++◌,
  arith, append_assoc, append-nil, ◌==◌, length, length-append, All, Bool-cases,
}
use platform_libnativehelper.Signature.Checked.{Checked, ok, Mode, parse_failure, parse_failure->>=}
use platform_libnativehelper.Signature.View.{StringView, substr_from-append}
use platform_libnativehelper.Signature.Descriptor.{as_node, parse_single_type_descriptor}
use platform_libnativehelper.Signature.Descriptor.Grammar.{
  IsFieldType, IsType, field, void, IsType-nonempty,
}
use platform_libnativehelper.Signature.Descriptor.Objects.{result, parsed, failed}
use platform_libnativehelper.Signature.Descriptor.Outcomes.{parse_single-Parsed}
use platform_libnativehelper.Signature.Function.{
  JniSignatureDescriptor, push_back, parsing_parameters, parsing_return_type, completed, finish,
  loop,
}

abbrev pub descriptor : List StringView → StringView → JniSignatureDescriptor
descriptor args ret = record { args = args; ret = ret }

-- The arguments one after the other.
abbrev pub joined : List StringView → StringView
joined [] = []
joined (t ∷ ts) = t ++ joined ts

as_node_ok : (t rest : StringView) → 1 ≤ length t → as_node (result t rest) ≡ ok t
unfolding as_node
as_node_ok t rest h = ground arith

pub push_back_ok :
    (max : ℕ) (args : List StringView) (t : StringView)
    → length args + 1 ≤ max
    → push_back max args t ≡ ok (args ++ t ∷ [])
unfolding push_back
push_back_ok max args t h = ground arith

-- One round of the state kParsingReturnType, at a descriptor `t`.
pub return_round :
    (m : Mode) (max f c : ℕ) (s t rest : StringView) (args : List StringView) (ret : StringView)
    → 1 ≤ length t
    → parse_single_type_descriptor m (c ∷ s) true ≡ ok (result t rest)
    → loop m max (suc f) parsing_return_type (c ∷ s) args ret ≡ loop m max f completed rest args t
unfolding loop
return_round m max f c s t rest args ret h e = rw (e, as_node_ok t rest h)

-- One round of the state kParsingParameters, at a descriptor `t`.
pub parameter_round :
    (m : Mode) (max f c : ℕ) (s t rest : StringView) (args : List StringView) (ret : StringView)
    → (c == b')') ≡ false
    → 1 ≤ length t
    → length args + 1 ≤ max
    → parse_single_type_descriptor m (c ∷ s) false ≡ ok (result t rest)
    → loop m max (suc f) parsing_parameters (c ∷ s) args ret
      ≡ loop m max f parsing_parameters rest (args ++ t ∷ []) ret
unfolding loop
parameter_round m max f c s t rest args ret n h k e =
    rw (n, e, as_node_ok t rest h, push_back_ok max args t k)

-- The rest of the view is a return type, or parsing fails.
data Returned (m : Mode) (s : StringView) (args : List StringView)
    (r : Checked JniSignatureDescriptor) : Type 0 where
  returned :
      (t : StringView) → IsType true t → s ≡ t → r ≡ ok (descriptor args t) → Returned m s args r
  not_returned : r ≡ parse_failure m → Returned m s args r

-- Nothing may follow the return type.
completed-Returned :
    (m : Mode) (max f : ℕ) (s t rest : StringView) (args : List StringView)
    (r : Checked JniSignatureDescriptor)
    → IsType true t
    → s ≡ t ++ rest
    → length rest ≤ f
    → r ≡ loop m max f completed rest args t
    → Returned m s args r
unfolding loop finish
completed-Returned m max f s t [] args r d e h g = returned t d (e ∙ append-nil t) g
completed-Returned m max zero s t (x ∷ rest) args r d e h g = absurd (omega arith)
completed-Returned m max (suc f) s t (x ∷ rest) args r d e h g = not_returned g

return-Returned :
    (m : Mode) (max f : ℕ) (s : StringView) (args : List StringView) (ret : StringView)
    → length s ≤ f
    → Returned m s args (loop m max f parsing_return_type s args ret)
unfolding loop finish
return-Returned m max f [] args ret h = not_returned refl
return-Returned m max zero (c ∷ s) args ret h = absurd (omega arith)
return-Returned m max (suc f) (c ∷ s) args ret h =
    elim (parse_single-Parsed m (c ∷ s) true (omega arith)) [
      | parsed t rest d e g ↦
          completed-Returned m max f (c ∷ s) t rest args _ d e
            (omega (arith, IsType-nonempty d, length-append t rest, ap length e))
            (return_round m max f c s t rest args ret (IsType-nonempty d) g)
      | failed g ↦ not_returned (rw g (parse_failure->>= m _))
    ]

-- The rest of the view is parameters, ')' and a return type, or parsing fails.
pub data Listed (m : Mode) (s : StringView) (args : List StringView)
    (r : Checked JniSignatureDescriptor) : Type 0 where
  listed :
      (ts : List StringView) (t : StringView)
      → All IsFieldType ts
      → IsType true t
      → s ≡ joined ts ++ b')' ∷ t
      → r ≡ ok (descriptor (args ++ ts) t)
      → Listed m s args r
  not_listed : r ≡ parse_failure m → Listed m s args r

Listed-close :
    (m : Mode) (max f : ℕ) (s : StringView) (args : List StringView) (ret : StringView)
    (r : Checked JniSignatureDescriptor)
    → r ≡ loop m max f parsing_return_type s args ret
    → Returned m s args (loop m max f parsing_return_type s args ret)
    → Listed m (b')' ∷ s) args r
Listed-close m max f s args ret r e (returned t d g k) =
    listed [] t tt d (ap (◌∷◌ b')') g)
      (e ∙ k ∙ ap (λ a. ok (descriptor a t)) (sym (append-nil args)))
Listed-close m max f s args ret r e (not_returned k) = not_listed (e ∙ k)

Listed-cons :
    (m : Mode) (s t rest : StringView) (args : List StringView)
    (r r' : Checked JniSignatureDescriptor)
    → IsFieldType t
    → s ≡ t ++ rest
    → r ≡ r'
    → Listed m rest (args ++ t ∷ []) r'
    → Listed m s args r
Listed-cons m s t rest args r r' d e g (listed ts u ds du k l) =
    listed (t ∷ ts) u (d, ds) du (e ∙ ap (◌++◌ t) k ∙ sym (append_assoc t (joined ts) (b')' ∷ u)))
      (g ∙ l ∙ ap (λ a. ok (descriptor a u)) (append_assoc args (t ∷ []) ts))
Listed-cons m s t rest args r r' d e g (not_listed k) = not_listed (g ∙ k)

pub close_round :
    (m : Mode) (max f : ℕ) (s : StringView) (args : List StringView) (ret : StringView)
    → loop m max (suc f) parsing_parameters (b')' ∷ s) args ret
      ≡ loop m max f parsing_return_type s args ret
unfolding loop
close_round m max f s args ret = rw (substr_from-append (b')' ∷ []) s)

pub parameters-Listed :
    (m : Mode) (max f : ℕ) (s : StringView) (args : List StringView) (ret : StringView)
    → length s ≤ f
    → length args + length s ≤ max
    → Listed m s args (loop m max f parsing_parameters s args ret)
unfolding loop finish
parameters-Listed m max f [] args ret h k = not_listed refl
parameters-Listed m max zero (c ∷ s) args ret h k = absurd (omega arith)
parameters-Listed m max (suc f) (c ∷ s) args ret h k = elim (Bool-cases (c == b')')) [
  | inl e ↦
      let q : c ≡ b')' = ground arith in
      rw q (
        Listed-close m max f s args ret _ (close_round m max f s args ret)
          (return-Returned m max f s args ret (omega arith)))
  | inr n ↦ elim (parse_single-Parsed m (c ∷ s) false (omega arith)) [
    | parsed t rest (field d) e g ↦
        Listed-cons m (c ∷ s) t rest args _ _ d e
          (parameter_round m max f c s t rest args ret n
            (IsType-nonempty {allow_void = false} (field d)) (omega arith) g)
          (parameters-Listed m max f rest (args ++ t ∷ []) ret
            (omega (
              arith,
              IsType-nonempty {allow_void = false} (field d),
              length-append t rest,
              ap length e,
            ))
            (omega (
              arith,
              IsType-nonempty {allow_void = false} (field d),
              length-append t rest,
              ap length e,
              length-append args (t ∷ []),
            )))
    | parsed t rest (void x y) e g ↦ cc
    | failed g ↦ not_listed (rw (n, g) (parse_failure->>= m _))
  ]
]
