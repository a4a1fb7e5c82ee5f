-- ===== src/Signature/Descriptor/Grammar.antt =====
-- The type descriptors that the parser reads, as a grammar of their own: those of the JNI
-- specification, chapter 3, but for the class names, which the parser does not check.
use platform_libnativehelper.Base.{
  ℕ, ◌≤◌, ◌≡◌, ◌≢◌, ◌⊎◌, Bool, true, [], ◌∷◌, ◌++◌, arith, length, All,
}
use platform_libnativehelper.Signature.View.{StringView}

-- A letter of a primitive type.
abbrev pub IsPrimitive : ℕ → Type 0
IsPrimitive c =
    (c ≡ b'Z')
    ⊎ (c ≡ b'B')
    ⊎ (c ≡ b'C')
    ⊎ (c ≡ b'S')
    ⊎ (c ≡ b'I')
    ⊎ (c ≡ b'J')
    ⊎ (c ≡ b'F')
    ⊎ (c ≡ b'D')

-- What stands for a class name has none of the characters ( ) [ and ;, and nothing else is asked of it.
abbrev pub IsNameChar : ℕ → Type 0
IsNameChar c = (c ≢ b'(') × (c ≢ b')') × (c ≢ b'[') × (c ≢ b';')

pub data IsFieldType : StringView → Type 0 where
  primitive : {t : StringView} (c : ℕ) → IsPrimitive c → t ≡ c ∷ [] → IsFieldType t
  object :
      {t : StringView} (c : ℕ) (name : StringView)
      → IsNameChar c
      → All IsNameChar name
      → t ≡ b'L' ∷ (c ∷ name) ++ b';' ∷ []
      → IsFieldType t
  array : {t u : StringView} → IsFieldType u → t ≡ b'[' ∷ u → IsFieldType t

-- What stands in a return position: a field type, or the descriptor of void.
pub data IsType : Bool → StringView → Type 0 where
  field : {allow_void : Bool} {t : StringView} → IsFieldType t → IsType allow_void t
  void :
      {allow_void : Bool} {t : StringView} → allow_void ≡ true → t ≡ b'V' ∷ [] → IsType allow_void t

pub IsFieldType-nonempty : {t : StringView} → IsFieldType t → 1 ≤ length t
IsFieldType-nonempty (primitive c p e) = ground arith
IsFieldType-nonempty (object c name h hs e) = ground arith
IsFieldType-nonempty (array d e) = ground arith

pub IsType-nonempty : {allow_void : Bool} {t : StringView} → IsType allow_void t → 1 ≤ length t
IsType-nonempty (field d) = IsFieldType-nonempty d
IsType-nonempty (void h e) = ground arith
