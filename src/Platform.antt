-- ===== src/Platform.antt =====
-- JNIPlatformHelp.c and file_descriptor_jni.c: fields of NIO buffers and of file descriptors, through
-- the identifiers that JniConstants.c caches. A jint is a 32-bit word, a jlong a 64-bit word.
pub mod Buffers
pub mod Descriptors
pub mod Wrapper
use platform_libnativehelper.Base.{
  >>=-returned, some_not_none, if_true, if_false, IsReturned, aborted≢returned, returned_injective,
  crashed, same_string, same_string_sound, Outcome, aborted, returned, ◌>>=◌, ℕ, zero, suc, ◌+◌,
  ◌-◌, ◌*◌, ◌/◌, ◌%◌, ◌^◌, ◌≤◌, ◌<◌, ◌≡◌, refl, sym, ap, ap₂, ◌∙◌, subst, fun_ext, ◌≢◌, ◌↔◌, ◌⊎◌,
  inl, inr, Bool, true, false, not, ◌&&◌, ◌||◌, Option, none, some, List, [], ◌∷◌, ◌++◌, map,
  append_assoc, append-nil, arith, ltb, leb, ◌==◌, if◌then◌else◌, ==_iff, Bool-cases, and_left,
  and_right, and_intro, false≢true, Option-cases, String, codes, length, take, drop, get_elem?,
  length-append, take-append, drop-append, take_all, All, All-append,
}
use platform_libnativehelper.Constants.{
  Vm, Cache, nio_buffer_element_size_shift, nio_buffer_address, FieldConstant,
  file_descriptor_descriptor, nio_buffer_limit, nio_buffer_position, nio_access, file_descriptor,
  file_descriptor_init, nio_access_get_base_array_offset, nio_access_get_base_array,
}
use platform_libnativehelper.Constants.Initialize.{class_of, field_of, method_of}

-- The values of the fields of the objects of the Java heap.
abbrev pub Heap : Type 0
Heap = ℕ → ℕ → ℕ

-- The functions that the files call beside those of JniConstants.c. Class and method identifiers
-- may be NULL.
pub record Objects : Type 0 where
  pub call_static_object_method : Heap → Option ℕ → Option ℕ → ℕ → ℕ × Heap
  pub call_static_int_method : Heap → Option ℕ → Option ℕ → ℕ → ℕ × Heap
  pub is_instance_of : ℕ → Option ℕ → Bool
  pub new_object : Heap → Option ℕ → Option ℕ → Option ℕ × Heap

pub record State : Type 0 where
  pub heap : Heap
  pub cache : Cache

-- GetIntField and GetLongField; one with a NULL identifier is a crash.
unfoldable pub get_field : ℕ → Option ℕ × Cache → Heap → Outcome (ℕ × State)
get_field object (none, cache) heap = crashed
get_field object (some field, cache) heap =
    returned (heap object field, record { heap = heap; cache = cache })

-- A field read by its constant.
unfoldable pub read : Vm → ℕ → FieldConstant → ℕ → State → Outcome (ℕ × State)
read vm env f object s = field_of vm env f s.cache >>= λ r. get_field object r s.heap

-- `position << shift` on 32-bit words, as a machine shifts.
unfoldable pub shift_left : ℕ → ℕ → ℕ
shift_left position shift = (position * 2 ^ (shift % 32)) % 2 ^ 32

-- An int where a jlong is wanted.
unfoldable pub sign_extend : ℕ → ℕ
sign_extend w = if ltb w (2 ^ 31) then w else w + (2 ^ 64 - 2 ^ 32)

unfoldable pub add_position : ℕ → ℕ → ℕ → ℕ
add_position base position shift = (base + sign_extend (shift_left position shift)) % 2 ^ 64

module _ (vm : Vm) (env : ℕ) where
  unfoldable pub get_buffer_position : ℕ → State → Outcome (ℕ × State)
  get_buffer_position nio_buffer s = read vm env nio_buffer_position nio_buffer s

  unfoldable pub get_buffer_limit : ℕ → State → Outcome (ℕ × State)
  get_buffer_limit nio_buffer s = read vm env nio_buffer_limit nio_buffer s

  unfoldable pub get_buffer_element_size_shift : ℕ → State → Outcome (ℕ × State)
  get_buffer_element_size_shift nio_buffer s =
      read vm env nio_buffer_element_size_shift nio_buffer s

  unfoldable pub get_nio_buffer_base_array : Objects → ℕ → State → Outcome (ℕ × State)
  get_nio_buffer_base_array o nio_buffer s = class_of vm env nio_access s.cache >>= λ k.
      method_of vm env nio_access_get_base_array k.1 >>= λ m.
      let r = o.call_static_object_method s.heap k.0 m.0 nio_buffer in
      returned (r.0, record { heap = r.1; cache = m.1 })

  unfoldable pub get_nio_buffer_base_array_offset : Objects → ℕ → State → Outcome (ℕ × State)
  get_nio_buffer_base_array_offset o nio_buffer s = class_of vm env nio_access s.cache >>= λ k.
      method_of vm env nio_access_get_base_array_offset k.1 >>= λ m.
      let r = o.call_static_int_method s.heap k.0 m.0 nio_buffer in
      returned (r.0, record { heap = r.1; cache = m.1 })

  -- A buffer without an address, one that is not direct, has the pointer 0.
  unfoldable pub offset_from : ℕ → ℕ × State → Outcome (ℕ × State)
  offset_from nio_buffer (base, t) =
      if base == 0
      then returned (base, t)
      else (get_buffer_position nio_buffer t >>= λ p.
          get_buffer_element_size_shift nio_buffer p.1 >>= λ h.
          returned (add_position base p.0 h.0, h.1))

  unfoldable pub get_nio_buffer_pointer : ℕ → State → Outcome (ℕ × State)
  get_nio_buffer_pointer nio_buffer s =
      read vm env nio_buffer_address nio_buffer s >>= offset_from nio_buffer

  -- The position, the limit, the shift and the address.
  unfoldable pub get_nio_buffer_fields : ℕ → State → Outcome (ℕ × ℕ × ℕ × ℕ × State)
  get_nio_buffer_fields nio_buffer s = get_buffer_position nio_buffer s >>= λ p.
      get_buffer_limit nio_buffer p.1 >>= λ l. get_buffer_element_size_shift nio_buffer l.1 >>= λ h.
      read vm env nio_buffer_address nio_buffer h.1 >>= λ a. returned (p.0, l.0, h.0, a.0, a.1)

  -- EnsureArgumentIsFileDescriptor: NULL is `none`.
  unfoldable pub ensure_argument_is_file_descriptor :
      Objects → Option ℕ → State → Outcome (ℕ × State)
  ensure_argument_is_file_descriptor o none s = aborted
  ensure_argument_is_file_descriptor o (some object) s =
      class_of vm env file_descriptor s.cache >>= λ k.
      if o.is_instance_of object k.0
      then returned (object, record { heap = s.heap; cache = k.1 })
      else aborted

  unfoldable pub create : Objects → State → Outcome (Option ℕ × State)
  create o s = class_of vm env file_descriptor s.cache >>= λ k.
      method_of vm env file_descriptor_init k.1 >>= λ m.
      let r = o.new_object s.heap k.0 m.0 in returned (r.0, record { heap = r.1; cache = m.1 })

  unfoldable pub get_fd : Objects → Option ℕ → State → Outcome (ℕ × State)
  get_fd o object s = ensure_argument_is_file_descriptor o object s >>= λ a.
      read vm env file_descriptor_descriptor a.0 a.1

  -- SetIntField.
  unfoldable pub set_field : ℕ → ℕ → Option ℕ × Cache → Heap → Outcome State
  set_field object value (none, cache) heap = crashed
  set_field object value (some field, cache) heap = returned (record {
    heap = λ o f. if (o == object) && (f == field) then value else heap o f;
    cache = cache;
  })

  unfoldable pub set_fd : Objects → Option ℕ → ℕ → State → Outcome State
  set_fd o object fd s = ensure_argument_is_file_descriptor o object s >>= λ a.
      field_of vm env file_descriptor_descriptor a.1.cache >>= λ f. set_field a.0 fd f a.1.heap
