-- ===== src/Constants.antt =====
-- JniConstants.c: the classes, methods and fields that are looked up once and cached. The calls of
-- the virtual machine are parameters.
pub mod Initialize
pub mod Resolved
pub mod Access
use platform_libnativehelper.Base.{
  >>=-returned, some_not_none, if_true, if_false, IsReturned, aborted≢returned, returned_injective,
  crashed, same_string, same_string_sound, Outcome, aborted, returned, ◌>>=◌, ℕ, zero, suc, ◌+◌,
  ◌-◌, ◌*◌, ◌/◌, ◌%◌, ◌^◌, ◌≤◌, ◌<◌, ◌≡◌, refl, sym, ap, ap₂, ◌∙◌, subst, fun_ext, ◌≢◌, ◌↔◌, ◌⊎◌,
  inl, inr, Bool, true, false, not, ◌&&◌, ◌||◌, Option, none, some, List, [], ◌∷◌, ◌++◌, map,
  append_assoc, append-nil, arith, ltb, leb, ◌==◌, if◌then◌else◌, ==_iff, Bool-cases, and_left,
  and_right, and_intro, false≢true, Option-cases, String, codes, length, take, drop, get_elem?,
  length-append, take-append, drop-append, take_all, All, All-append,
}

-- The rows of JCLASS_CONSTANTS_LIST, JMETHODID_CONSTANTS_LIST and JFIELDID_CONSTANTS_LIST.
pub data ClassConstant : Type 0 where
  file_descriptor nio_access nio_buffer : ClassConstant

pub data MethodConstant : Type 0 where
  file_descriptor_init nio_access_get_base_array nio_access_get_base_array_offset : MethodConstant
  nio_buffer_array nio_buffer_array_offset : MethodConstant

pub data FieldConstant : Type 0 where
  file_descriptor_descriptor nio_buffer_element_size_shift nio_buffer_address : FieldConstant
  nio_buffer_limit nio_buffer_position : FieldConstant

pub record ClassRow : Type 0 where
  pub signature : List ℕ
  pub android_only : Bool

pub record MemberRow : Type 0 where
  pub class : ClassConstant
  pub name : List ℕ
  pub signature : List ℕ
  pub is_static : Bool

unfoldable pub class_row : ClassConstant → ClassRow
class_row file_descriptor = record {
  signature = codes "java/io/FileDescriptor";
  android_only = false;
}
class_row nio_access = record { signature = codes "java/nio/NIOAccess"; android_only = true }
class_row nio_buffer = record { signature = codes "java/nio/Buffer"; android_only = false }

unfoldable pub method_row : MethodConstant → MemberRow
method_row file_descriptor_init = record {
  class = file_descriptor;
  name = codes "<init>";
  signature = codes "()V";
  is_static = false;
}
method_row nio_access_get_base_array = record {
  class = nio_access;
  name = codes "getBaseArray";
  signature = codes "(Ljava/nio/Buffer;)Ljava/lang/Object;";
  is_static = true;
}
method_row nio_access_get_base_array_offset = record {
  class = nio_access;
  name = codes "getBaseArrayOffset";
  signature = codes "(Ljava/nio/Buffer;)I";
  is_static = true;
}
method_row nio_buffer_array = record {
  class = nio_buffer;
  name = codes "array";
  signature = codes "()Ljava/lang/Object;";
  is_static = false;
}
method_row nio_buffer_array_offset = record {
  class = nio_buffer;
  name = codes "arrayOffset";
  signature = codes "()I";
  is_static = false;
}

unfoldable pub field_row : FieldConstant → MemberRow
field_row file_descriptor_descriptor = record {
  class = file_descriptor;
  name = codes "descriptor";
  signature = codes "I";
  is_static = false;
}
field_row nio_buffer_element_size_shift = record {
  class = nio_buffer;
  name = codes "_elementSizeShift";
  signature = codes "I";
  is_static = false;
}
field_row nio_buffer_address = record {
  class = nio_buffer;
  name = codes "address";
  signature = codes "J";
  is_static = false;
}
field_row nio_buffer_limit = record {
  class = nio_buffer;
  name = codes "limit";
  signature = codes "I";
  is_static = false;
}
field_row nio_buffer_position = record {
  class = nio_buffer;
  name = codes "position";
  signature = codes "I";
  is_static = false;
}

-- The functions of an environment that the file calls, by the environment's address. A class may
-- be NULL.
pub record Vm : Type 0 where
  pub find_class : ℕ → List ℕ → Option ℕ
  pub new_global_ref : ℕ → ℕ → Option ℕ
  pub get_method_id : ℕ → Option ℕ → List ℕ → List ℕ → Option ℕ
  pub get_static_method_id : ℕ → Option ℕ → List ℕ → List ℕ → Option ℕ
  pub get_field_id : ℕ → Option ℕ → List ℕ → List ℕ → Option ℕ
  pub get_static_field_id : ℕ → Option ℕ → List ℕ → List ℕ → Option ℕ

-- The static variables, by constant, and the pthread_once control block. The variable g_init_env
-- only hands the environment to InitializeConstants, which takes it as an argument here.
pub record Cache : Type 0 where
  pub classes : ClassConstant → Option ℕ
  pub methods : MethodConstant → Option ℕ
  pub fields : FieldConstant → Option ℕ
  pub initialized : Bool

-- The static storage, and what jniUninitializeConstants leaves.
abbrev pub empty : Cache
empty = record { classes = λ _. none; methods = λ _. none; fields = λ _. none; initialized = false }

module _ (vm : Vm) (env : ℕ) where
  -- FindClass with the row's signature and flag.
  unfoldable pub find_class : ClassConstant → Outcome (Option ℕ)
  find_class c = elim (vm.find_class env (class_row c).signature) [
    | none ↦ if (class_row c).android_only then returned none else aborted
    | some cls ↦ returned (vm.new_global_ref env cls)
  ]

  -- The identifier that the virtual machine has for a row in a class.
  unfoldable pub method_id : Option ℕ → MemberRow → Option ℕ
  method_id cls r =
      if r.is_static
      then vm.get_static_method_id env cls r.name r.signature
      else vm.get_method_id env cls r.name r.signature

  unfoldable pub field_id : Option ℕ → MemberRow → Option ℕ
  field_id cls r =
      if r.is_static
      then vm.get_static_field_id env cls r.name r.signature
      else vm.get_field_id env cls r.name r.signature

  -- ALOG_ALWAYS_FATAL_IF on a NULL identifier.
  unfoldable pub not_null : Option ℕ → Outcome (Option ℕ)
  not_null none = aborted
  not_null (some a) = returned (some a)

  unfoldable pub find_method : (ClassConstant → Option ℕ) → MethodConstant → Outcome (Option ℕ)
  find_method classes m = not_null (method_id (classes (method_row m).class) (method_row m))

  unfoldable pub find_field : (ClassConstant → Option ℕ) → FieldConstant → Outcome (Option ℕ)
  find_field classes f = not_null (field_id (classes (field_row f).class) (field_row f))
