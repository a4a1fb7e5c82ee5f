-- ===== src/Signature/Infer.antt =====
-- InferJniDescriptor of signature_checker.h: the descriptor of a C++ function type, and its text.
pub mod Text
pub mod Final
pub mod Agreement
use platform_libnativehelper.Base.{
  ℕ, zero, suc, ◌+◌, ◌-◌, ◌*◌, ◌/◌, ◌%◌, ◌^◌, ◌≤◌, ◌<◌, ◌≡◌, refl, sym, ap, ap₂, ◌∙◌, subst,
  fun_ext, ◌≢◌, ◌↔◌, ◌⊎◌, inl, inr, Bool, true, false, not, ◌&&◌, ◌||◌, Option, none, some, List,
  [], ◌∷◌, ◌++◌, map, append_assoc, append-nil, arith, ltb, leb, ◌==◌, if◌then◌else◌, ==_iff,
  Bool-cases, and_left, and_right, false≢true, Option-cases, String, codes, length, take, drop,
  get_elem?, length-append, take-append, drop-append, take_all, All, All-append,
}
use platform_libnativehelper.Signature.Checked.{
  Mode, Checked, ok, halt, ◌>>=◌, null, spent, ◌>>◌, parse_assert, x_assert,
}
use platform_libnativehelper.Signature.Function.{JniSignatureDescriptor, push_back}
use platform_libnativehelper.Signature.Traits.{
  ReifiedJniTypeTrait, finality_value, NativeKind, final, JniType, CvType,
}
use platform_libnativehelper.Signature.View.{StringView}
use platform_libnativehelper.Signature.Match.{maybe_make_reified_jni_signature, count}

abbrev pub has_final_type : ReifiedJniTypeTrait → Bool
has_final_type t = finality_value t.type_finality == finality_value final

-- The constructor of JniDescriptorNode.
unfoldable pub make_node : StringView → Checked StringView
make_node longy = do x_assert (not (length longy == 0)); ok longy

-- The loop of FromFunctionType over the arguments.
unfoldable pub infer_args :
    Mode → ℕ → List ReifiedJniTypeTrait → List StringView → Checked (List StringView)
unfolding make_node
infer_args m max [] args = ok args
infer_args m max (arg_trait ∷ rest) args = do
  parse_assert m (has_final_type arg_trait)
  node ← make_node arg_trait.type_descriptor
  args' ← push_back max args node
  infer_args m max rest args'

unfoldable pub from_function_type :
    Mode → NativeKind → CvType → List JniType → Checked JniSignatureDescriptor
from_function_type m native_kind ret args = do
  reified_signature ← maybe_make_reified_jni_signature m native_kind ret args
  parse_assert m (has_final_type reified_signature.ret)
  return_node ← make_node reified_signature.ret.type_descriptor
  arg_nodes ← infer_args m (count args) reified_signature.args []
  ok (record { args = arg_nodes; ret = return_node })

add_sizes : ℕ → List StringView → ℕ
add_sizes acc_size [] = acc_size
add_sizes acc_size (longy ∷ rest) = add_sizes (acc_size + length longy) rest

-- The size of the text of `signature_descriptor`.
unfoldable pub string_size : JniSignatureDescriptor → ℕ
unfolding add_sizes
string_size signature_descriptor =
    add_sizes 1 signature_descriptor.args + 1 + length signature_descriptor.ret

unfoldable pub calculate_string_size : Checked JniSignatureDescriptor → Checked ℕ
calculate_string_size (ok signature_descriptor) = ok (string_size signature_descriptor)
calculate_string_size null = ok 0
calculate_string_size halt = halt
calculate_string_size spent = spent

-- c_str[pos] = c. A write out of bounds is no constant expression.
unfoldable pub write : List ℕ → ℕ → ℕ → Checked (List ℕ)
write [] pos c = halt
write (x ∷ xs) zero c = ok (c ∷ xs)
write (x ∷ xs) (suc pos) c = write xs pos c >>= λ ys. ok (x ∷ ys)

-- c_str[pos++] = longy[i], over a view.
unfoldable pub write_view : List ℕ → ℕ → StringView → Checked (List ℕ × ℕ)
write_view c_str pos [] = ok (c_str, pos)
write_view c_str pos (c ∷ longy) = do c_str' ← write c_str pos c; write_view c_str' (pos + 1) longy

unfoldable pub write_args : List ℕ → ℕ → List StringView → Checked (List ℕ × ℕ)
write_args c_str pos [] = ok (c_str, pos)
write_args c_str pos (longy ∷ rest) = do
  (c_str', pos') ← write_view c_str pos longy
  write_args c_str' pos' rest

abbrev zeros : ℕ → List ℕ
zeros zero = []
zeros (suc n) = 0 ∷ zeros n

-- GetString, once the descriptor and kMaxStringSize are known.
unfoldable pub fill_string : ℕ → JniSignatureDescriptor → Checked (List ℕ)
fill_string max_string_size signature_descriptor = do
  (c₁, p₁) ← write_view (zeros (max_string_size + 1)) 0 (b'(' ∷ [])
  (c₂, p₂) ← write_args c₁ p₁ signature_descriptor.args
  (c₃, p₃) ← write_view c₂ p₂ (b')' ∷ [])
  (c₄, p₄) ← write_view c₃ p₃ signature_descriptor.ret
  x_assert (p₄ == max_string_size)
  write c₄ p₄ 0

get_string_of : ℕ → Checked JniSignatureDescriptor → Checked (List ℕ)
unfolding fill_string
get_string_of max_string_size (ok d) = fill_string max_string_size d
get_string_of max_string_size null = write (zeros (max_string_size + 1)) 0 0
get_string_of max_string_size halt = halt
get_string_of max_string_size spent = spent

unfoldable pub get_string : Mode → NativeKind → CvType → List JniType → Checked (List ℕ)
unfolding get_string_of
get_string m native_kind ret args = do
  max_string_size ← calculate_string_size (from_function_type m native_kind ret args)
  get_string_of max_string_size (from_function_type m native_kind ret args)
