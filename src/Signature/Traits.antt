-- ===== src/Signature/Traits.antt =====
-- The type traits of signature_checker.h: jni_type_trait, its table and ReifiedJniTypeTrait.
use platform_libnativehelper.Base.{ℕ, Bool, ◌&&◌, List, [], ◌∷◌, ◌==◌, String, codes}
use platform_libnativehelper.Signature.View.{StringView, view_eq}

-- What kind of JNI a type belongs to. (`kNormalJniCallingConventionParameter` is JNIEnv*.)
pub data NativeKind : Type 0 where
  not_jni normal_jni_calling_convention_parameter normal_native fast_native critical_native :
      NativeKind

-- The value of the enumerator.
abbrev pub kind_value : NativeKind → ℕ
kind_value not_jni = 0
kind_value normal_jni_calling_convention_parameter = 1
kind_value normal_native = 2
kind_value fast_native = 3
kind_value critical_native = 4

pub data TypeFinal : Type 0 where
  not_final final : TypeFinal

abbrev pub finality_value : TypeFinal → ℕ
finality_value not_final = 0
finality_value final = 1

pub data NativePositionAllowed : Type 0 where
  not_any_position return_position zeroth_position first_or_later_position
        second_or_later_position :
      NativePositionAllowed

abbrev pub position_value : NativePositionAllowed → ℕ
position_value not_any_position = 0
position_value return_position = 1
position_value zeroth_position = 2
position_value first_or_later_position = 3
position_value second_or_later_position = 4

-- The C++ types of a function type. `other` is any type with no trait of its own.
pub data JniType : Type 0 where
  jboolean jbyte jchar jshort jint jlong jfloat jdouble : JniType
  jobject jclass jstring jarray jobject_array : JniType
  jboolean_array jbyte_array jchar_array jshort_array jint_array jlong_array : JniType
  jfloat_array jdouble_array jthrowable jni_env void other : JniType

-- The type of a result. C++ drops a const or volatile in front of a scalar argument's type when it
-- forms a function type, and leaves it in front of the result's.
pub data CvType : Type 0 where
  unqualified qualified : JniType → CvType

-- std::remove_cv
abbrev pub remove_cv : CvType → JniType
remove_cv (unqualified t) = t
remove_cv (qualified t) = t

-- The type whose traits jni_type_trait<T> gives: no qualified type has a specialisation of its own.
abbrev pub traited : CvType → JniType
traited (unqualified t) = t
traited (qualified t) = other

pub record ReifiedJniTypeTrait : Type 0 where
  pub native_kind : NativeKind
  pub type_descriptor : StringView
  pub position_allowed : NativePositionAllowed
  pub type_finality : TypeFinal
  pub type_name : StringView

-- A line of DEFINE_JNI_TYPE_TRAIT.
abbrev trait :
    String → String → NativeKind → TypeFinal → NativePositionAllowed → ReifiedJniTypeTrait
trait name descriptor kind finality position = record {
  native_kind = kind;
  type_descriptor = codes descriptor;
  position_allowed = position;
  type_finality = finality;
  type_name = codes name;
}

-- Reify<T>: the specialisations by DEFINE_JNI_TYPE_TRAIT, and the trait of any other type.
abbrev pub reify : JniType → ReifiedJniTypeTrait
reify jboolean = trait "jboolean" "Z" critical_native final second_or_later_position
reify jbyte = trait "jbyte" "B" critical_native final second_or_later_position
reify jchar = trait "jchar" "C" critical_native final second_or_later_position
reify jshort = trait "jshort" "S" critical_native final second_or_later_position
reify jint = trait "jint" "I" critical_native final second_or_later_position
reify jlong = trait "jlong" "J" critical_native final second_or_later_position
reify jfloat = trait "jfloat" "F" critical_native final second_or_later_position
reify jdouble = trait "jdouble" "D" critical_native final second_or_later_position
reify jobject = trait "jobject" "Ljava/lang/Object;" fast_native not_final first_or_later_position
reify jclass = trait "jclass" "Ljava/lang/Class;" fast_native final first_or_later_position
reify jstring = trait "jstring" "Ljava/lang/String;" fast_native final second_or_later_position
reify jarray = trait "jarray" "Ljava/lang/Object;" fast_native not_final second_or_later_position
reify jobject_array =
    trait "jobjectArray" "[Ljava/lang/Object;" fast_native not_final second_or_later_position
reify jboolean_array = trait "jbooleanArray" "[Z" fast_native final second_or_later_position
reify jbyte_array = trait "jbyteArray" "[B" fast_native final second_or_later_position
reify jchar_array = trait "jcharArray" "[C" fast_native final second_or_later_position
reify jshort_array = trait "jshortArray" "[S" fast_native final second_or_later_position
reify jint_array = trait "jintArray" "[I" fast_native final second_or_later_position
reify jlong_array = trait "jlongArray" "[J" fast_native final second_or_later_position
reify jfloat_array = trait "jfloatArray" "[F" fast_native final second_or_later_position
reify jdouble_array = trait "jdoubleArray" "[D" fast_native final second_or_later_position
reify jthrowable =
    trait "jthrowable" "Ljava/lang/Throwable;" fast_native not_final second_or_later_position
reify jni_env = trait "JNIEnv*" "" normal_jni_calling_convention_parameter final zeroth_position
reify void = trait "void" "V" critical_native final return_position
reify other = trait "(illegal)" "(illegal)" not_jni not_final not_any_position

-- The types in the order of DEFINE_JNI_TYPE_TRAIT.
abbrev pub jni_types : List JniType
jni_types =
    jboolean ∷ jbyte ∷ jchar ∷ jshort ∷ jint ∷ jlong ∷ jfloat ∷ jdouble ∷ jobject ∷ jclass ∷ jstring
    ∷ jarray ∷ jobject_array ∷ jboolean_array ∷ jbyte_array ∷ jchar_array ∷ jshort_array
    ∷ jint_array ∷ jlong_array ∷ jfloat_array ∷ jdouble_array ∷ jthrowable ∷ jni_env ∷ void ∷ []

-- operator== of the traits.
unfoldable pub trait_eq : ReifiedJniTypeTrait → ReifiedJniTypeTrait → Bool
trait_eq lhs rhs =
    kind_value lhs.native_kind == kind_value rhs.native_kind
    && view_eq rhs.type_descriptor lhs.type_descriptor
    && position_value lhs.position_allowed == position_value rhs.position_allowed
    && finality_value rhs.type_finality == finality_value lhs.type_finality
    && view_eq lhs.type_name rhs.type_name
