-- ===== src/Signature/Match/Similar.antt =====
-- Which type most_similar_type_descriptor finds for a descriptor of the grammar.
use platform_libnativehelper.Base.{
  false≢true, ℕ, ◌≡◌, refl, sym, ap, ◌∙◌, ◌⊎◌, inl, inr, Bool, true, false, ◌&&◌, some, List, [],
  ◌∷◌, ◌++◌, arith, ◌==◌, if◌then◌else◌, Bool-cases, codes,
}
use platform_libnativehelper.Signature.View.{StringView, view_eq, view_eq_iff, substr-append}
use platform_libnativehelper.Signature.Match.{
  match_exact, most_similar_type_descriptor, match_inexact,
}
use platform_libnativehelper.Signature.Traits.{
  JniType, jni_types, reify, jobject_array, jobject, jclass, jstring, jarray, jthrowable,
}
use platform_libnativehelper.Signature.Checked.{ok}

abbrev pub starts_with : StringView → StringView → Bool
starts_with [] s = true
starts_with (c ∷ p) [] = false
starts_with (c ∷ p) (d ∷ s) = c == d && starts_with p s

starts_with-append : (p s : StringView) → starts_with p (p ++ s) ≡ true
starts_with-append [] s = refl
starts_with-append (c ∷ p) s = ground (arith, starts_with-append p s)

-- Two views that start otherwise differ.
pub view_eq-starts_with :
    (p s t : StringView) → starts_with p t ≡ false → view_eq (p ++ s) t ≡ false
view_eq-starts_with p s t h = elim (Bool-cases (view_eq (p ++ s) t)) [
  | inl e ↦
      let q : p ++ s ≡ t = (view_eq_iff (p ++ s) t).0 e in
      absurd (false≢true (sym h ∙ ap (starts_with p) (sym q) ∙ starts_with-append p s))
  | inr e ↦ e
]

-- The types whose descriptors start with `p`.
abbrev starting : StringView → List JniType → List JniType
starting p [] = []
starting p (t ∷ ts) =
    if starts_with p (reify t).type_descriptor then t ∷ starting p ts else starting p ts

match_exact-starting :
    (p s : StringView) (ts : List JniType)
    → match_exact (p ++ s) ts ≡ match_exact (p ++ s) (starting p ts)
unfolding match_exact
match_exact-starting p s [] = refl
match_exact-starting p s (t ∷ ts) = elim (Bool-cases (starts_with p (reify t).type_descriptor)) [
  | inl e ↦ rw (e, match_exact-starting p s ts)
  | inr e ↦ rw (e, view_eq-starts_with p s _ e) (match_exact-starting p s ts)
]

-- A descriptor of a class, by its first letter.
object_types :
    (s : StringView)
    → match_exact (b'L' ∷ s) jni_types
      ≡ match_exact (b'L' ∷ s) (jobject ∷ jclass ∷ jstring ∷ jarray ∷ jthrowable ∷ [])
object_types s = match_exact-starting (b'L' ∷ []) s jni_types

reference_array_types :
    (s : StringView)
    → match_exact (b'[' ∷ b'L' ∷ s) jni_types ≡ match_exact (b'[' ∷ b'L' ∷ s) (jobject_array ∷ [])
reference_array_types s = match_exact-starting (b'[' ∷ b'L' ∷ []) s jni_types

nested_array_types :
    (s : StringView) → match_exact (b'[' ∷ b'[' ∷ s) jni_types ≡ match_exact (b'[' ∷ b'[' ∷ s) []
nested_array_types s = match_exact-starting (b'[' ∷ b'[' ∷ []) s jni_types

inexact_array :
    (c : ℕ) (s : StringView)
    → (c ≡ b'L') ⊎ (c ≡ b'[')
    → match_inexact (b'[' ∷ c ∷ s) ≡ ok (some (reify jobject_array))
unfolding match_inexact view_eq
inexact_array c s (inl e) = rw (e, substr-append (b'[' ∷ b'L' ∷ []) s) (ground arith)
inexact_array c s (inr e) = rw (e, substr-append (b'[' ∷ b'[' ∷ []) s) (ground arith)

-- Every array of objects or of arrays is an Object[].
pub similar_reference_array :
    (s : StringView)
    → most_similar_type_descriptor (b'[' ∷ b'L' ∷ s) ≡ ok (some (reify jobject_array))
unfolding most_similar_type_descriptor match_exact
similar_reference_array s =
    rw (reference_array_types s, most_similar_type_descriptor)
      (elim (Bool-cases (view_eq (b'[' ∷ b'L' ∷ s) (reify jobject_array).type_descriptor)) [
        | inl e ↦ rw e
        | inr e ↦ rw e (inexact_array b'L' s (inl refl))
      ])

pub similar_nested_array :
    (s : StringView)
    → most_similar_type_descriptor (b'[' ∷ b'[' ∷ s) ≡ ok (some (reify jobject_array))
unfolding most_similar_type_descriptor match_exact
similar_nested_array s =
    rw (nested_array_types s, most_similar_type_descriptor) (inexact_array b'[' s (inr refl))

-- The type of a class's descriptor: those with a trait of their own, or else jobject.
abbrev pub object_type : StringView → JniType
object_type d =
    if view_eq d (codes "Ljava/lang/Class;")
    then jclass
    else if view_eq d (codes "Ljava/lang/String;")
    then jstring
    else if view_eq d (codes "Ljava/lang/Throwable;")
    then jthrowable
    else jobject

inexact_object : (s : StringView) → match_inexact (b'L' ∷ s) ≡ ok (some (reify jobject))
unfolding match_inexact
inexact_object s = refl

similar_Object :
    most_similar_type_descriptor (codes "Ljava/lang/Object;")
    ≡ ok (some (reify (object_type (codes "Ljava/lang/Object;"))))
unfolding most_similar_type_descriptor match_exact view_eq
similar_Object = refl

pub similar_object :
    (s : StringView)
    → most_similar_type_descriptor (b'L' ∷ s) ≡ ok (some (reify (object_type (b'L' ∷ s))))
unfolding most_similar_type_descriptor match_exact
similar_object s = elim (Bool-cases (view_eq (b'L' ∷ s) (reify jobject).type_descriptor)) [
  | inl e ↦ rw ((view_eq_iff (b'L' ∷ s) _).0 e) similar_Object
  | inr n ↦
      rw (object_types s, most_similar_type_descriptor)
        (elim (Bool-cases (view_eq (b'L' ∷ s) (reify jclass).type_descriptor)) [
          | inl e ↦ rw (n, e)
          | inr n₁ ↦ elim (Bool-cases (view_eq (b'L' ∷ s) (reify jstring).type_descriptor)) [
            | inl e ↦ rw (n, n₁, e)
            | inr n₂ ↦ elim (Bool-cases (view_eq (b'L' ∷ s) (reify jthrowable).type_descriptor)) [
              | inl e ↦ rw (n, n₁, n₂, e)
              | inr n₃ ↦ rw (n, n₁, n₂, n₃) (inexact_object s)
            ]
          ]
        ])
]
