-- ===== src/Signature/Match/Table.antt =====
-- Which descriptors the check takes for which C++ type, and which the comment of jni_macros.h allows.
use platform_libnativehelper.Base.{◌≡◌, Bool, false, not, ◌&&◌, ◌||◌, codes}
use platform_libnativehelper.Signature.View.{StringView, view_eq}
use platform_libnativehelper.Signature.Traits.{
  JniType, reify, jobject, jthrowable, jarray, jobject_array, jni_env, other,
}
use platform_libnativehelper.Signature.Match.Similar.{starts_with}
use platform_libnativehelper.Signature.Match.{compare_jni_descriptor_node_erased}
use platform_libnativehelper.Signature.Checked.{ok}

-- What the check takes. A final type must match exactly. jobject stands for the classes that have no
-- type of their own, jthrowable for any class, jarray for any array, and jobjectArray for any array
-- of references.
abbrev pub is_match : StringView → JniType → Bool
is_match d jobject =
    starts_with (codes "L") d
    && not (
        view_eq d (codes "Ljava/lang/Class;")
        || view_eq d (codes "Ljava/lang/String;")
        || view_eq d (codes "Ljava/lang/Throwable;"))
is_match d jthrowable = starts_with (codes "L") d
is_match d jarray = starts_with (codes "[") d
is_match d jobject_array = starts_with (codes "[L") d || starts_with (codes "[[") d
is_match d jni_env = false
is_match d other = false
is_match d t = view_eq d (reify t).type_descriptor

-- A descriptor of a class that has a strong row.
abbrev pub is_strong_class : StringView → Bool
is_strong_class d = view_eq d (codes "Ljava/lang/Class;") || view_eq d (codes "Ljava/lang/String;")

-- The table of the comment of jni_macros.h, where either side of a strong row (<->) is matched with
-- the other or fails: so jobject and jthrowable are for no class that has a strong row, and jarray
-- is for nothing, since each array stands in a strong row. Throwable has weak rows only.
abbrev pub is_documented : StringView → JniType → Bool
is_documented d jobject = starts_with (codes "L") d && not (is_strong_class d)
is_documented d jthrowable = starts_with (codes "L") d && not (is_strong_class d)
is_documented d jarray = false
is_documented d jobject_array = starts_with (codes "[L") d || starts_with (codes "[[") d
is_documented d jni_env = false
is_documented d other = false
is_documented d t = view_eq d (reify t).type_descriptor

-- Where the check and that comment differ.
abbrev pub is_divergent : StringView → JniType → Bool
is_divergent d jobject = view_eq d (codes "Ljava/lang/Throwable;")
is_divergent d jthrowable = is_strong_class d
is_divergent d jarray = starts_with (codes "[") d
is_divergent d t = false

-- What the theorem says of a descriptor `d`.
abbrev pub Agrees : StringView → Type 0
Agrees d = (t : JniType) → compare_jni_descriptor_node_erased d (reify t) ≡ ok (is_match d t)
