-- ===== src/Constants/Resolved.antt =====
-- JniConstants.c: what the cache holds after any sequence of calls.
use platform_libnativehelper.Base.{
  >>=-returned, some_not_none, aborted≢returned, returned_injective, returned, ℕ, ◌≡◌, refl, sym,
  ◌∙◌, subst, ◌≢◌, true, Option, none, some,
}
use platform_libnativehelper.Constants.{
  Vm, not_null, Cache, ClassConstant, find_class, empty, find_method, find_field, file_descriptor,
  MethodConstant, file_descriptor_init, nio_access, FieldConstant, method_id,
  nio_access_get_base_array, method_row, file_descriptor_descriptor, nio_buffer,
  nio_access_get_base_array_offset, nio_buffer_element_size_shift, field_id, field_row,
  nio_buffer_array, nio_buffer_address, nio_buffer_limit, nio_buffer_array_offset,
  nio_buffer_position,
}
use platform_libnativehelper.Constants.Initialize.{
  initialize_classes, initialize_constants, of_classes, initialize_methods, class_of,
  initialize_fields, of_fields, of_methods, method_of, field_of, uninitialize_constants,
}

-- The cache of one environment: every class was found there, or is the one that only Android has,
-- and every method and field is what the virtual machine has for its row in the cached class of
-- that row, and is not NULL.
pub record IsResolved (vm : Vm) (env : ℕ) (s : Cache) : Type 0 where
  pub classes : (c : ClassConstant) → find_class vm env c ≡ returned (s.classes c)
  pub methods :
      (m : MethodConstant)
      → (s.methods m ≡ method_id vm env (s.classes (method_row m).class) (method_row m))
        × (s.methods m ≢ none)
  pub fields :
      (f : FieldConstant)
      → (s.fields f ≡ field_id vm env (s.classes (field_row f).class) (field_row f))
        × (s.fields f ≢ none)
  pub is_initialized : s.initialized ≡ true

not_null_lem :
    (vm : Vm) (env : ℕ) (o a : Option ℕ) → not_null vm env o ≡ returned a → (a ≡ o) × (a ≢ none)
unfolding not_null
not_null_lem vm env none a h = absurd (aborted≢returned a (sym h))
not_null_lem vm env (some x) a h =
    (sym (returned_injective h), λ n. some_not_none x (returned_injective h ∙ n))

module _ (vm : Vm) (env : ℕ) where
  initialize_classes_lem :
      (k : ClassConstant → Option ℕ)
      → initialize_classes vm env ≡ returned k
      → (c : ClassConstant) → find_class vm env c ≡ returned (k c)
  unfolding initialize_classes of_classes
  initialize_classes_lem k h =
      let a = >>=-returned (find_class vm env file_descriptor) _ k h in
      let b = >>=-returned (find_class vm env nio_access) _ k a.2 in
      let c = >>=-returned (find_class vm env nio_buffer) _ k b.2 in
      subst
        (λ (z : ClassConstant → Option ℕ).
          (c : ClassConstant) → find_class vm env c ≡ returned (z c))
        (returned_injective c.2)
        (λ x. elim x as (λ x. find_class vm env x ≡ returned (of_classes a.0 b.0 c.0 x)) [
          | file_descriptor ↦ a.1
          | nio_access ↦ b.1
          | nio_buffer ↦ c.1
        ])

  module _ (k : ClassConstant → Option ℕ) where
    initialize_methods_lem :
        (v : MethodConstant → Option ℕ)
        → initialize_methods vm env k ≡ returned v
        → (m : MethodConstant) → find_method vm env k m ≡ returned (v m)
    unfolding initialize_methods of_methods
    initialize_methods_lem v h =
        let a = >>=-returned (find_method vm env k file_descriptor_init) _ v h in
        let b = >>=-returned (find_method vm env k nio_access_get_base_array) _ v a.2 in
        let c = >>=-returned (find_method vm env k nio_access_get_base_array_offset) _ v b.2 in
        let d = >>=-returned (find_method vm env k nio_buffer_array) _ v c.2 in
        let e = >>=-returned (find_method vm env k nio_buffer_array_offset) _ v d.2 in
        subst
          (λ (z : MethodConstant → Option ℕ).
            (m : MethodConstant) → find_method vm env k m ≡ returned (z m))
          (returned_injective e.2)
          (λ x.
            elim x as (λ x. find_method vm env k x ≡ returned (of_methods a.0 b.0 c.0 d.0 e.0 x)) [
              | file_descriptor_init ↦ a.1
              | nio_access_get_base_array ↦ b.1
              | nio_access_get_base_array_offset ↦ c.1
              | nio_buffer_array ↦ d.1
              | nio_buffer_array_offset ↦ e.1
            ])

    initialize_fields_lem :
        (v : FieldConstant → Option ℕ)
        → initialize_fields vm env k ≡ returned v
        → (f : FieldConstant) → find_field vm env k f ≡ returned (v f)
    unfolding initialize_fields of_fields
    initialize_fields_lem v h =
        let a = >>=-returned (find_field vm env k file_descriptor_descriptor) _ v h in
        let b = >>=-returned (find_field vm env k nio_buffer_element_size_shift) _ v a.2 in
        let c = >>=-returned (find_field vm env k nio_buffer_address) _ v b.2 in
        let d = >>=-returned (find_field vm env k nio_buffer_limit) _ v c.2 in
        let e = >>=-returned (find_field vm env k nio_buffer_position) _ v d.2 in
        subst
          (λ (z : FieldConstant → Option ℕ).
            (f : FieldConstant) → find_field vm env k f ≡ returned (z f))
          (returned_injective e.2)
          (λ x.
            elim x as (λ x. find_field vm env k x ≡ returned (of_fields a.0 b.0 c.0 d.0 e.0 x)) [
              | file_descriptor_descriptor ↦ a.1
              | nio_buffer_element_size_shift ↦ b.1
              | nio_buffer_address ↦ c.1
              | nio_buffer_limit ↦ d.1
              | nio_buffer_position ↦ e.1
            ])

  pub initialize_constants-IsResolved :
      (s : Cache) → initialize_constants vm env ≡ returned s → IsResolved vm env s
  unfolding initialize_constants find_method find_field
  initialize_constants-IsResolved s h =
      let k = >>=-returned (initialize_classes vm env) _ s h in
      let m = >>=-returned (initialize_methods vm env k.0) _ s k.2 in
      let f = >>=-returned (initialize_fields vm env k.0) _ s m.2 in
      subst (IsResolved vm env) (returned_injective f.2) (record {
        classes = initialize_classes_lem k.0 k.1;
        methods = λ x. not_null_lem vm env _ _ (initialize_methods_lem k.0 m.0 m.1 x);
        fields = λ x. not_null_lem vm env _ _ (initialize_fields_lem k.0 f.0 f.1 x);
        is_initialized = refl;
      })

-- The calls that return, each with the environment it is given.
pub data Step (vm : Vm) (s : Cache) : Cache → Type 0 where
  class_read :
      (env : ℕ) (c : ClassConstant) (x : Option ℕ) (t : Cache)
      → class_of vm env c s ≡ returned (x, t)
      → Step vm s t
  method_read :
      (env : ℕ) (m : MethodConstant) (x : Option ℕ) (t : Cache)
      → method_of vm env m s ≡ returned (x, t)
      → Step vm s t
  field_read :
      (env : ℕ) (f : FieldConstant) (x : Option ℕ) (t : Cache)
      → field_of vm env f s ≡ returned (x, t)
      → Step vm s t
  uninitialized : Step vm s (uninitialize_constants s)

pub data Reachable (vm : Vm) : Cache → Type 0 where
  started : Reachable vm empty
  stepped : (s t : Cache) → Reachable vm s → Step vm s t → Reachable vm t
