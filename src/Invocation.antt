-- ===== src/Invocation.antt =====
-- JniInvocation.c with the calls of DlHelp.c: the library that provides the JNI Invocation API, the
-- pointers to its three functions, and the exported functions that go through them.
pub mod Exports
pub mod Loaded
pub mod Choice
pub mod Wrapper
use platform_libnativehelper.Base.{
  ℕ, zero, suc, ◌+◌, ◌-◌, ◌*◌, ◌/◌, ◌%◌, ◌^◌, ◌≤◌, ◌<◌, ◌≡◌, refl, sym, ap, ap₂, ◌∙◌, subst,
  fun_ext, ◌≢◌, ◌↔◌, ◌⊎◌, inl, inr, Bool, true, false, not, ◌&&◌, ◌||◌, Option, none, some, List,
  [], ◌∷◌, ◌++◌, map, append_assoc, append-nil, arith, ltb, leb, ◌==◌, if◌then◌else◌, ==_iff,
  Bool-cases, and_left, and_right, and_intro, false≢true, Option-cases, String, codes, length, take,
  drop, get_elem?, length-append, take-append, drop-append, take_all, All, All-append, same_string,
}

-- The default library and the three symbols, as C strings.
abbrev pub k_default_jni_invocation_library : List ℕ
k_default_jni_invocation_library = codes "libart.so"

abbrev pub sym_get_default_java_vm_init_args : List ℕ
sym_get_default_java_vm_init_args = codes "JNI_GetDefaultJavaVMInitArgs"

abbrev pub sym_create_java_vm : List ℕ
sym_create_java_vm = codes "JNI_CreateJavaVM"

abbrev pub sym_get_created_java_vms : List ℕ
sym_get_created_java_vms = codes "JNI_GetCreatedJavaVMs"

-- A call of the dynamic linker through DlHelp.c. A pointer is a number, NULL is `none`.
pub data DlCall : Type 0 where
  opened : List ℕ → Option ℕ → DlCall
  looked_up : ℕ → List ℕ → Option ℕ → DlCall
  closed : Option ℕ → DlCall

-- The dynamic linker: each answer may depend on the calls before it, newest first.
pub record Linker : Type 0 where
  pub dl_open_library : List DlCall → List ℕ → Option ℕ
  pub dl_get_symbol : List DlCall → ℕ → List ℕ → Option ℕ

-- The build and the system properties it reads; a property that is not set is the empty text.
pub record System : Type 0 where
  pub is_android : Bool
  pub ro_debuggable : List ℕ
  pub persist_sys_dalvik_vm_lib_2 : List ℕ

pub record JniInvocationImpl : Type 0 where
  pub jni_provider_library_name : Option (List ℕ)
  pub jni_provider_library : Option ℕ
  pub jni_get_default_java_vm_init_args : Option ℕ
  pub jni_create_java_vm : Option ℕ
  pub jni_get_created_java_vms : Option ℕ

-- `memset(instance, 0, sizeof(*instance))`, and the static storage before any call.
abbrev pub zeroed : JniInvocationImpl
zeroed = record {
  jni_provider_library_name = none;
  jni_provider_library = none;
  jni_get_default_java_vm_init_args = none;
  jni_create_java_vm = none;
  jni_get_created_java_vms = none;
}

-- The instance and the calls of the dynamic linker so far, newest first.
pub record Process : Type 0 where
  pub g_impl : JniInvocationImpl
  pub calls : List DlCall

unfoldable pub is_debuggable : System → Bool
is_debuggable y = if y.is_android then same_string y.ro_debuggable (codes "1") else true

-- The text copied to the buffer; its length is the value returned.
unfoldable pub get_library_system_property : System → List ℕ
get_library_system_property y = if y.is_android then y.persist_sys_dalvik_vm_lib_2 else []

unfoldable pub get_library_with : Option (List ℕ) → Bool → Option (List ℕ) → List ℕ
get_library_with library false preferred = k_default_jni_invocation_library
get_library_with (some library) true preferred = library
get_library_with none true (some preferred) = preferred
get_library_with none true none = k_default_jni_invocation_library

-- The system's library, when there is a buffer and the property is not empty.
unfoldable pub preferred_library : System → Bool → Option (List ℕ)
preferred_library y has_buffer =
    if has_buffer && ltb 0 (length (get_library_system_property y))
    then some (get_library_system_property y)
    else none

unfoldable pub get_library : System → Option (List ℕ) → Bool → List ℕ
get_library y library has_buffer =
    get_library_with library (is_debuggable y) (preferred_library y has_buffer)

-- DlOpenLibrary and FindSymbol, with the call recorded.
unfoldable pub open_library : Linker → List ℕ → List DlCall → Option ℕ × List DlCall
open_library k name calls =
    (k.dl_open_library calls name, opened name (k.dl_open_library calls name) ∷ calls)

unfoldable pub find_symbol : Linker → ℕ → List ℕ → List DlCall → Option ℕ × List DlCall
find_symbol k library symbol calls = (
  k.dl_get_symbol calls library symbol,
  looked_up library symbol (k.dl_get_symbol calls library symbol) ∷ calls,
)

-- The default library, the last one tried.
unfoldable pub default_opened : Option ℕ × List DlCall → Option (List ℕ × ℕ) × List DlCall
default_opened (some library, calls) = (some (k_default_jni_invocation_library, library), calls)
default_opened (none, calls) = (none, calls)

-- The library opened with its name, after the fallback, if one is.
unfoldable pub fall_back :
    Linker → List ℕ → Option ℕ × List DlCall → Option (List ℕ × ℕ) × List DlCall
fall_back k name (some library, calls) = (some (name, library), calls)
fall_back k name (none, calls) =
    if same_string name k_default_jni_invocation_library
    then (none, calls)
    else default_opened (open_library k k_default_jni_invocation_library calls)

unfoldable pub create : JniInvocationImpl → Bool
create g = elim g.jni_provider_library [ some _ ↦ false | none ↦ true ]

-- The three symbols are looked up in turn. The instance is filled in once all are found, and left
-- alone when one is not.
unfoldable pub find_created :
    List ℕ → ℕ → JniInvocationImpl → ℕ → ℕ → Option ℕ × List DlCall → Bool × Process
find_created name library g args create_vm (none, calls) =
    (false, record { g_impl = g; calls = calls })
find_created name library g args create_vm (some created, calls) = (
  true,
  record {
    g_impl = record {
      jni_provider_library_name = some name;
      jni_provider_library = some library;
      jni_get_default_java_vm_init_args = some args;
      jni_create_java_vm = some create_vm;
      jni_get_created_java_vms = some created;
    };
    calls = calls;
  },
)

unfoldable pub find_create :
    Linker → List ℕ → ℕ → JniInvocationImpl → ℕ → Option ℕ × List DlCall → Bool × Process
find_create k name library g args (none, calls) = (false, record { g_impl = g; calls = calls })
find_create k name library g args (some create_vm, calls) =
    find_created name library g args create_vm
      (find_symbol k library sym_get_created_java_vms calls)

unfoldable pub find_args :
    Linker → List ℕ → ℕ → JniInvocationImpl → Option ℕ × List DlCall → Bool × Process
find_args k name library g (none, calls) = (false, record { g_impl = g; calls = calls })
find_args k name library g (some args, calls) =
    find_create k name library g args (find_symbol k library sym_create_java_vm calls)

unfoldable pub find_all :
    Linker → JniInvocationImpl → Option (List ℕ × ℕ) × List DlCall → Bool × Process
find_all k g (none, calls) = (false, record { g_impl = g; calls = calls })
find_all k g (some (name, library), calls) =
    find_args k name library g (find_symbol k library sym_get_default_java_vm_init_args calls)

-- JniInvocationInit on the instance: there is a buffer for the property on Android only.
unfoldable pub init : Linker → System → Option (List ℕ) → Process → Bool × Process
init k y library p = find_all k p.g_impl (
    fall_back k (get_library y library y.is_android)
      (open_library k (get_library y library y.is_android) p.calls))

unfoldable pub destroy : Process → Process
destroy p = record { g_impl = zeroed; calls = closed p.g_impl.jni_provider_library ∷ p.calls }
