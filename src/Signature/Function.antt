-- ===== src/Signature/Function.antt =====
-- ParseSignatureAsList of signature_checker.h: a whole function descriptor, such as
-- "(ILjava/lang/String;)V".
pub mod Outcomes
pub mod RoundTrip
use platform_libnativehelper.Base.{
  ℕ, zero, suc, ◌+◌, Bool, true, false, List, [], ◌∷◌, ◌++◌, leb, ◌==◌, if◌then◌else◌, length,
}
use platform_libnativehelper.Signature.Checked.{
  Checked, ok, spent, ◌>>=◌, ◌>>◌, x_assert, Mode, parse_failure, parse_assert,
}
use platform_libnativehelper.Signature.View.{StringView, substr_from}
use platform_libnativehelper.Signature.Descriptor.{as_node, parse_single_type_descriptor}

-- Ret(Args...)
pub record FunctionSignatureDescriptor {ℓ} (T : Type ℓ) : Type ℓ where
  pub args : List T
  pub ret : T

abbrev pub JniSignatureDescriptor : Type 0
JniSignatureDescriptor = FunctionSignatureDescriptor StringView

-- ConstexprVector::push_back, into an array of `max_size` elements.
unfoldable pub push_back {ℓ} : {T : Type ℓ} → ℕ → List T → T → Checked (List T)
push_back max_size array value =
    x_assert (leb (length array + 1) max_size) >> ok (array ++ value ∷ [])

pub data State : Type 0 where
  initial parsing_parameters parsing_return_type completed : State

-- The switch behind the loop.
unfoldable pub finish : Mode → State → List StringView → StringView → Checked JniSignatureDescriptor
finish m completed args ret = ok (record { args = args; ret = ret })
finish m _ args ret = parse_failure m

-- The loop. Each round drops a character at least, so the length of the view is enough fuel.
unfoldable pub loop :
    Mode
    → ℕ
    → ℕ
    → State
    → StringView
    → List StringView
    → StringView
    → Checked JniSignatureDescriptor
loop m max f state [] args ret = finish m state args ret
loop m max zero state (c ∷ s) args ret = spent
loop m max (suc f) initial (c ∷ s) args ret = do
  parse_assert m (c == b'(')
  signature ← substr_from (c ∷ s) 1
  loop m max f parsing_parameters signature args ret
loop m max (suc f) parsing_parameters (c ∷ s) args ret =
    if c == b')'
    then (substr_from (c ∷ s) 1 >>= λ signature.
        loop m max f parsing_return_type signature args ret)
    else (parse_single_type_descriptor m (c ∷ s) false >>= λ res. as_node res >>= λ node.
        push_back max args node >>= λ args'.
        loop m max f parsing_parameters res.remainder args' ret)
loop m max (suc f) parsing_return_type (c ∷ s) args ret = do
  res ← parse_single_type_descriptor m (c ∷ s) true
  node ← as_node res
  loop m max f completed res.remainder args node
loop m max (suc f) completed (c ∷ s) args ret = parse_failure m

unfoldable pub parse_signature_as_list : Mode → ℕ → StringView → Checked JniSignatureDescriptor
unfolding loop finish
parse_signature_as_list m max signature = loop m max (length signature) initial signature [] []
