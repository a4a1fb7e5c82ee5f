-- ===== src/Lazy/Forward.antt =====
-- The exported functions of libnativehelper_lazy.c. An argument is a word: pointers, references
-- and integers are passed on as they are.
use platform_libnativehelper.Base.{
  crashed, Outcome, returned, ◌>>=◌, ℕ, true, Option, none, some, List, [], ◌∷◌, ◌==◌,
  if◌then◌else◌, get_elem?,
}
use platform_libnativehelper.Lazy.{
  Linker, Code, State, MethodIndex, jni_create_java_vm, jni_invocation_init, Call,
  jni_invocation_get_library, jni_invocation_create, jni_uninitialize_constants,
  jni_get_nio_buffer_base_array, load_libnativehelper, jni_get_nio_buffer_base_array_offset,
  jni_get_default_java_vm_init_args, jni_invocation_destroy, a_file_descriptor_get_fd,
  a_file_descriptor_set_fd, jni_get_nio_buffer_pointer, a_file_descriptor_create,
  ensure_initialized, jni_get_nio_buffer_fields, index, rtld_noload, jni_get_created_java_vms,
}

-- The call through a slot of the table; one through NULL is a crash.
unfoldable pub call_method : Code → Option (Option ℕ) → List ℕ → State → Outcome (ℕ × State)
call_method c none args s = crashed
call_method c (some none) args s = crashed
call_method c (some (some method)) args s = returned (
  c.result s.invoked (record { address = method; arguments = args }),
  record s { invoked = record { address = method; arguments = args } ∷ s.invoked },
)

-- INVOKE_METHOD and INVOKE_VOID_METHOD, where the result is not used.
unfoldable pub invoke_method : Linker → Code → MethodIndex → List ℕ → State → Outcome (ℕ × State)
invoke_method k c m args s =
    ensure_initialized k s >>= λ t. call_method c (get_elem? t.g_methods (index m)) args t

module _ (k : Linker) (c : Code) where
  unfoldable pub afd_create : ℕ → State → Outcome (ℕ × State)
  afd_create env s = invoke_method k c a_file_descriptor_create (env ∷ []) s

  unfoldable pub afd_get_fd : ℕ → ℕ → State → Outcome (ℕ × State)
  afd_get_fd env file_descriptor s =
      invoke_method k c a_file_descriptor_get_fd (env ∷ file_descriptor ∷ []) s

  unfoldable pub afd_set_fd : ℕ → ℕ → ℕ → State → Outcome (ℕ × State)
  afd_set_fd env file_descriptor fd s =
      invoke_method k c a_file_descriptor_set_fd (env ∷ file_descriptor ∷ fd ∷ []) s

  -- JNI_OK is 0.
  unfoldable pub vm_created : ℕ × State → ℕ × State
  vm_created (status, s) =
      (status, if status == 0 then record s { g_java_vm_created_lazily = true } else s)

  unfoldable pub create_java_vm : ℕ → ℕ → ℕ → State → Outcome (ℕ × State)
  create_java_vm p_vm p_env vm_args s =
      invoke_method k c jni_create_java_vm (p_vm ∷ p_env ∷ vm_args ∷ []) s >>= λ r.
      returned (vm_created r)

  unfoldable pub get_default_java_vm_init_args : ℕ → State → Outcome (ℕ × State)
  get_default_java_vm_init_args vm_args s =
      invoke_method k c jni_get_default_java_vm_init_args (vm_args ∷ []) s

  -- The count that the last call wrote behind `p_vm_count`.
  unfoldable pub counted : ℕ × State → ℕ × ℕ × State
  counted (status, s) = (status, written s.invoked, s)
    where
      written : List Call → ℕ
      written [] = 0
      written (call ∷ before) = c.vm_count before call

  -- The status, the count behind `p_vm_count`, and the state.
  unfoldable pub count_vms : ℕ → ℕ → ℕ → State → Outcome (ℕ × ℕ × State)
  count_vms p_vm vm_max p_vm_count s =
      invoke_method k c jni_get_created_java_vms (p_vm ∷ vm_max ∷ p_vm_count ∷ []) s >>= λ r.
      returned (counted r)

  -- IsLibnativehelperLoaded is asked only where no VM was created here.
  unfoldable pub count_loaded : ℕ → ℕ → ℕ → Option ℕ × State → Outcome (ℕ × ℕ × State)
  count_loaded p_vm vm_max p_vm_count (none, s) = returned (0, 0, s)
  count_loaded p_vm vm_max p_vm_count (some handle, s) = count_vms p_vm vm_max p_vm_count s

  unfoldable pub get_created_java_vms : ℕ → ℕ → ℕ → State → Outcome (ℕ × ℕ × State)
  get_created_java_vms p_vm vm_max p_vm_count s =
      if s.g_java_vm_created_lazily
      then count_vms p_vm vm_max p_vm_count s
      else count_loaded p_vm vm_max p_vm_count (load_libnativehelper k rtld_noload s)

  unfoldable pub nio_base_array : ℕ → ℕ → State → Outcome (ℕ × State)
  nio_base_array env nio_buffer s =
      invoke_method k c jni_get_nio_buffer_base_array (env ∷ nio_buffer ∷ []) s

  unfoldable pub nio_base_array_offset : ℕ → ℕ → State → Outcome (ℕ × State)
  nio_base_array_offset env nio_buffer s =
      invoke_method k c jni_get_nio_buffer_base_array_offset (env ∷ nio_buffer ∷ []) s

  unfoldable pub nio_fields : ℕ → ℕ → ℕ → ℕ → ℕ → State → Outcome (ℕ × State)
  nio_fields env nio_buffer position limit element_size_shift s =
      invoke_method k c jni_get_nio_buffer_fields
        (env ∷ nio_buffer ∷ position ∷ limit ∷ element_size_shift ∷ []) s

  unfoldable pub nio_pointer : ℕ → ℕ → State → Outcome (ℕ × State)
  nio_pointer env nio_buffer s =
      invoke_method k c jni_get_nio_buffer_pointer (env ∷ nio_buffer ∷ []) s

  unfoldable pub uninitialize_constants : State → Outcome (ℕ × State)
  uninitialize_constants s = invoke_method k c jni_uninitialize_constants [] s

  unfoldable pub invocation_create : State → Outcome (ℕ × State)
  invocation_create s = invoke_method k c jni_invocation_create [] s

  unfoldable pub invocation_destroy : ℕ → State → Outcome (ℕ × State)
  invocation_destroy instance_ptr s = invoke_method k c jni_invocation_destroy (instance_ptr ∷ []) s

  unfoldable pub invocation_init : ℕ → ℕ → State → Outcome (ℕ × State)
  invocation_init instance_ptr library s =
      invoke_method k c jni_invocation_init (instance_ptr ∷ library ∷ []) s

  unfoldable pub invocation_get_library : ℕ → ℕ → State → Outcome (ℕ × State)
  invocation_get_library library buffer s =
      invoke_method k c jni_invocation_get_library (library ∷ buffer ∷ []) s
