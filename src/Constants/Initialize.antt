-- ===== src/Constants/Initialize.antt =====
-- JniConstants.c: InitializeConstants, which fills the cache, the accessors, which fill it first,
-- and jniUninitializeConstants.
use platform_libnativehelper.Base.{Outcome, returned, ◌>>=◌, ℕ, true, Option, if◌then◌else◌}
use platform_libnativehelper.Constants.{
  MethodConstant, ClassConstant, FieldConstant, Vm, Cache, find_class, empty, find_field,
  find_method, file_descriptor, file_descriptor_init, file_descriptor_descriptor, nio_access,
  nio_buffer_element_size_shift, nio_access_get_base_array, nio_access_get_base_array_offset,
  nio_buffer, nio_buffer_address, nio_buffer_array, nio_buffer_limit, nio_buffer_position,
  nio_buffer_array_offset,
}

-- The variables of the three classes.
unfoldable pub of_classes : Option ℕ → Option ℕ → Option ℕ → ClassConstant → Option ℕ
of_classes a b c file_descriptor = a
of_classes a b c nio_access = b
of_classes a b c nio_buffer = c

unfoldable pub of_methods :
    Option ℕ → Option ℕ → Option ℕ → Option ℕ → Option ℕ → MethodConstant → Option ℕ
of_methods a b c d e file_descriptor_init = a
of_methods a b c d e nio_access_get_base_array = b
of_methods a b c d e nio_access_get_base_array_offset = c
of_methods a b c d e nio_buffer_array = d
of_methods a b c d e nio_buffer_array_offset = e

unfoldable pub of_fields :
    Option ℕ → Option ℕ → Option ℕ → Option ℕ → Option ℕ → FieldConstant → Option ℕ
of_fields a b c d e file_descriptor_descriptor = a
of_fields a b c d e nio_buffer_element_size_shift = b
of_fields a b c d e nio_buffer_address = c
of_fields a b c d e nio_buffer_limit = d
of_fields a b c d e nio_buffer_position = e

module _ (vm : Vm) (env : ℕ) where
  unfoldable pub initialize_classes : Outcome (ClassConstant → Option ℕ)
  initialize_classes = find_class vm env file_descriptor >>= λ a.
      find_class vm env nio_access >>= λ b.
      find_class vm env nio_buffer >>= λ c. returned (of_classes a b c)

  unfoldable pub initialize_methods :
      (ClassConstant → Option ℕ) → Outcome (MethodConstant → Option ℕ)
  initialize_methods k = find_method vm env k file_descriptor_init >>= λ a.
      find_method vm env k nio_access_get_base_array >>= λ b.
      find_method vm env k nio_access_get_base_array_offset >>= λ c.
      find_method vm env k nio_buffer_array >>= λ d.
      find_method vm env k nio_buffer_array_offset >>= λ e. returned (of_methods a b c d e)

  unfoldable pub initialize_fields : (ClassConstant → Option ℕ) → Outcome (FieldConstant → Option ℕ)
  initialize_fields k = find_field vm env k file_descriptor_descriptor >>= λ a.
      find_field vm env k nio_buffer_element_size_shift >>= λ b.
      find_field vm env k nio_buffer_address >>= λ c. find_field vm env k nio_buffer_limit >>= λ d.
      find_field vm env k nio_buffer_position >>= λ e. returned (of_fields a b c d e)

  -- InitializeConstants under pthread_once, which then sets the control block.
  unfoldable pub initialize_constants : Outcome Cache
  initialize_constants = initialize_classes >>= λ k. initialize_methods k >>= λ m.
      initialize_fields k >>= λ f.
      returned (record { classes = k; methods = m; fields = f; initialized = true })

  unfoldable pub ensure_initialized : Cache → Outcome Cache
  ensure_initialized s = if s.initialized then returned s else initialize_constants

  -- The accessors JniConstants_FileDescriptorClass, JniConstants_FileDescriptor_init and so on.
  unfoldable pub class_of : ClassConstant → Cache → Outcome (Option ℕ × Cache)
  class_of c s = ensure_initialized s >>= λ t. returned (t.classes c, t)

  unfoldable pub method_of : MethodConstant → Cache → Outcome (Option ℕ × Cache)
  method_of m s = ensure_initialized s >>= λ t. returned (t.methods m, t)

  unfoldable pub field_of : FieldConstant → Cache → Outcome (Option ℕ × Cache)
  field_of f s = ensure_initialized s >>= λ t. returned (t.fields f, t)

unfoldable pub uninitialize_constants : Cache → Cache
uninitialize_constants s = empty
