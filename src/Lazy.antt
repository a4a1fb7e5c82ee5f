-- ===== src/Lazy.antt =====
-- libnativehelper_lazy.c: the table of method pointers of libnativehelper.so, filled in at the first
-- call, and the functions that forward through it.
pub mod Forward
pub mod Bound
pub mod Once
pub mod Reach
pub mod Query
use platform_libnativehelper.Base.{
  some_not_none, IsReturned, aborted≢returned, returned_injective, crashed, same_string,
  same_string_sound, Outcome, aborted, returned, ◌>>=◌, ℕ, zero, suc, ◌+◌, ◌-◌, ◌*◌, ◌/◌, ◌%◌, ◌^◌,
  ◌≤◌, ◌<◌, ◌≡◌, refl, sym, ap, ap₂, ◌∙◌, subst, fun_ext, ◌≢◌, ◌↔◌, ◌⊎◌, inl, inr, Bool, true,
  false, not, ◌&&◌, ◌||◌, Option, none, some, List, [], ◌∷◌, ◌++◌, map, append_assoc, append-nil,
  arith, ltb, leb, ◌==◌, if◌then◌else◌, ==_iff, Bool-cases, and_left, and_right, and_intro,
  false≢true, Option-cases, String, codes, length, take, drop, get_elem?, length-append,
  take-append, drop-append, take_all, All, All-append,
}

pub data MethodIndex : Type 0 where
  a_file_descriptor_create a_file_descriptor_get_fd a_file_descriptor_set_fd : MethodIndex
  jni_create_java_vm jni_get_created_java_vms jni_get_default_java_vm_init_args : MethodIndex
  jni_get_nio_buffer_base_array jni_get_nio_buffer_base_array_offset : MethodIndex
  jni_get_nio_buffer_fields jni_get_nio_buffer_pointer jni_uninitialize_constants : MethodIndex
  jni_invocation_create jni_invocation_destroy : MethodIndex
  jni_invocation_get_library jni_invocation_init : MethodIndex

-- The value of an enumerator, and k_MethodCount.
unfoldable pub index : MethodIndex → ℕ
index a_file_descriptor_create = 0
index a_file_descriptor_get_fd = 1
index a_file_descriptor_set_fd = 2
index jni_create_java_vm = 3
index jni_get_created_java_vms = 4
index jni_get_default_java_vm_init_args = 5
index jni_get_nio_buffer_base_array = 6
index jni_get_nio_buffer_base_array_offset = 7
index jni_get_nio_buffer_fields = 8
index jni_get_nio_buffer_pointer = 9
index jni_uninitialize_constants = 10
index jni_invocation_create = 11
index jni_invocation_destroy = 12
index jni_invocation_get_library = 13
index jni_invocation_init = 14

abbrev pub k_method_count : ℕ
k_method_count = 15

-- The symbol that BIND_SYMBOL makes of the name it is given.
unfoldable pub symbol_name : MethodIndex → List ℕ
symbol_name a_file_descriptor_create = codes "AFileDescriptor_create"
symbol_name a_file_descriptor_get_fd = codes "AFileDescriptor_getFd"
symbol_name a_file_descriptor_set_fd = codes "AFileDescriptor_setFd"
symbol_name jni_create_java_vm = codes "JNI_CreateJavaVM"
symbol_name jni_get_created_java_vms = codes "JNI_GetCreatedJavaVMs"
symbol_name jni_get_default_java_vm_init_args = codes "JNI_GetDefaultJavaVMInitArgs"
symbol_name jni_get_nio_buffer_base_array = codes "jniGetNioBufferBaseArray"
symbol_name jni_get_nio_buffer_base_array_offset = codes "jniGetNioBufferBaseArrayOffset"
symbol_name jni_get_nio_buffer_fields = codes "jniGetNioBufferFields"
symbol_name jni_get_nio_buffer_pointer = codes "jniGetNioBufferPointer"
symbol_name jni_uninitialize_constants = codes "jniUninitializeConstants"
symbol_name jni_invocation_create = codes "JniInvocationCreate"
symbol_name jni_invocation_destroy = codes "JniInvocationDestroy"
symbol_name jni_invocation_get_library = codes "JniInvocationGetLibrary"
symbol_name jni_invocation_init = codes "JniInvocationInit"

pub data OpenFlags : Type 0 where
  rtld_noload rtld_now : OpenFlags

-- The dynamic linker, opening libnativehelper.so: its answers may depend on the calls of dlopen
-- before, newest first. The symbols of an open library stay where they are.
pub record Linker : Type 0 where
  pub dlopen : List OpenFlags → OpenFlags → Option ℕ
  pub dlsym : ℕ → List ℕ → Option ℕ

-- A call of the code at an address, with its arguments as words.
pub record Call : Type 0 where
  pub address : ℕ
  pub arguments : List ℕ

-- What the code at an address returns, and the count that JNI_GetCreatedJavaVMs writes, after the
-- calls made before, newest first.
pub record Code : Type 0 where
  pub result : List Call → Call → ℕ
  pub vm_count : List Call → Call → ℕ

-- The static variables of the file, with the calls made so far.
pub record State : Type 0 where
  pub g_methods : List (Option ℕ)
  pub initialized : Bool
  pub g_prevent_libnativehelper_loading : Bool
  pub g_java_vm_created_lazily : Bool
  pub opens : List OpenFlags
  pub invoked : List Call

abbrev pub nulls : List (Option ℕ)
nulls =
    none ∷ none ∷ none ∷ none ∷ none ∷ none ∷ none ∷ none ∷ none ∷ none ∷ none ∷ none ∷ none ∷ none
    ∷ none ∷ []

abbrev pub start : State
start = record {
  g_methods = nulls;
  initialized = false;
  g_prevent_libnativehelper_loading = false;
  g_java_vm_created_lazily = false;
  opens = [];
  invoked = [];
}

unfoldable pub prevent_lazy_loading_for_tests : State → State
prevent_lazy_loading_for_tests s = record s { g_prevent_libnativehelper_loading = true }

-- LoadLibnativehelper with the flags: the handle, and the state with the call of dlopen recorded.
unfoldable pub load_libnativehelper : Linker → OpenFlags → State → Option ℕ × State
load_libnativehelper k flags s =
    if s.g_prevent_libnativehelper_loading
    then (none, s)
    else (k.dlopen s.opens flags, record s { opens = flags ∷ s.opens })

unfoldable pub set_elem : List (Option ℕ) → ℕ → Option ℕ → List (Option ℕ)
set_elem [] i x = []
set_elem (y ∷ ys) zero x = x ∷ ys
set_elem (y ∷ ys) (suc i) x = y ∷ set_elem ys i x

unfoldable pub bind_symbol : Linker → ℕ → MethodIndex → List (Option ℕ) → Outcome (List (Option ℕ))
bind_symbol k handle m methods = elim (k.dlsym handle (symbol_name m)) [
  | none ↦ aborted
  | some symbol ↦ returned (set_elem methods (index m) (some symbol))
]

-- The BIND_SYMBOL lines of InitializeOnce, in their order.
abbrev pub all_methods : List MethodIndex
all_methods =
    a_file_descriptor_create ∷ a_file_descriptor_get_fd ∷ a_file_descriptor_set_fd
    ∷ jni_create_java_vm ∷ jni_get_created_java_vms ∷ jni_get_default_java_vm_init_args
    ∷ jni_get_nio_buffer_base_array ∷ jni_get_nio_buffer_base_array_offset
    ∷ jni_get_nio_buffer_fields ∷ jni_get_nio_buffer_pointer ∷ jni_uninitialize_constants
    ∷ jni_invocation_create ∷ jni_invocation_destroy ∷ jni_invocation_get_library
    ∷ jni_invocation_init ∷ []

unfoldable pub bind_symbols :
    Linker → ℕ → List MethodIndex → List (Option ℕ) → Outcome (List (Option ℕ))
bind_symbols k handle [] methods = returned methods
bind_symbols k handle (m ∷ ms) methods = bind_symbol k handle m methods >>= bind_symbols k handle ms

-- The loop that checks every symbol is bound.
unfoldable pub check_bound : List (Option ℕ) → Outcome (Unit {0})
check_bound [] = returned tt
check_bound (none ∷ methods) = aborted
check_bound (some symbol ∷ methods) = check_bound methods

-- The table of a loaded library, checked.
unfoldable pub bind_all : Linker → Option ℕ × State → Outcome State
bind_all k (none, s) = aborted
bind_all k (some handle, s) = bind_symbols k handle all_methods s.g_methods >>= λ methods.
    check_bound methods >>= λ _. returned (record s { g_methods = methods })

unfoldable pub initialize_once : Linker → State → Outcome State
initialize_once k s = bind_all k (load_libnativehelper k rtld_now s)

-- pthread_once: the control block is set when InitializeOnce has returned.
unfoldable pub ensure_initialized : Linker → State → Outcome State
ensure_initialized k s =
    if s.initialized
    then returned s
    else (initialize_once k s >>= λ t. returned (record t { initialized = true }))
