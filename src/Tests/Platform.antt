-- ===== src/Tests/Platform.antt =====
-- JniConstants.c, JNIPlatformHelp.c and file_descriptor_jni.c at concrete inputs.
use platform_libnativehelper.Platform.{
  State, Heap, Objects, get_nio_buffer_pointer, get_nio_buffer_fields,
}
use platform_libnativehelper.Constants.Resolved.{
  started, stepped, IsResolved, initialize_constants-IsResolved, method_read,
}
use platform_libnativehelper.Constants.Initialize.{
  ensure_initialized, initialize_constants, of_fields, method_of, initialize_classes, of_methods,
  initialize_methods, of_classes, initialize_fields,
}
use platform_libnativehelper.Constants.{
  find_class, empty, Cache, Vm, method_id, method_row, nio_buffer_array, file_descriptor_descriptor,
  nio_buffer_address, find_method, find_field, nio_buffer_position, not_null,
  nio_buffer_element_size_shift, field_id, nio_buffer_limit, class_row, field_row,
}
use platform_libnativehelper.Base.{
  same_string, returned, ◌>>=◌, ℕ, ◌≡◌, refl, ap, ◌≢◌, ◌⊎◌, true, Option, none, some, arith, ◌==◌,
  if◌then◌else◌, codes, length,
}
use platform_libnativehelper.Constants.Access.{
  nio_access_required, Reachable-IsResolved, method_of_lem,
}
use platform_libnativehelper.Platform.Buffers.{expected_pointer, value, nio_pointer_lem}
use platform_libnativehelper.Platform.Wrapper.{
  jni_create_file_descriptor, IsMade, jni_create_file_descriptor_lem,
}

-- A virtual machine that has every class but the one that only Android has, and numbers members by
-- the length of their names.
abbrev desktop : Vm
desktop = record {
  find_class = λ env name.
      if same_string name (codes "java/nio/NIOAccess") then none else some (length name);
  new_global_ref = λ env cls. some cls;
  get_method_id = λ env cls name signature. some (length name);
  get_static_method_id = λ env cls name signature. map_class cls;
  get_field_id = λ env cls name signature. some (length name);
  get_static_field_id = λ env cls name signature. none;
}
  where
    map_class : Option ℕ → Option ℕ
    map_class none = none
    map_class (some cls) = some cls

-- The same with that class.
abbrev android : Vm
android = record desktop {
  find_class = λ env name. some (length name);
  get_static_method_id = λ env cls name signature. some (length name);
}

-- What the android machine's cache holds.
abbrev cached : Cache
cached = record {
  classes = of_classes (some 22) (some 18) (some 15);
  methods = of_methods (some 6) (some 12) (some 18) (some 5) (some 11);
  fields = of_fields (some 10) (some 17) (some 7) (some 5) (some 8);
  initialized = true;
}

cached_lem : initialize_constants android 1 ≡ returned cached
unfolding initialize_constants initialize_classes initialize_methods initialize_fields find_class
    find_method find_field not_null method_id field_id class_row method_row field_row
cached_lem = refl

cached-IsResolved : IsResolved android 1 cached
cached-IsResolved = initialize_constants-IsResolved android 1 cached cached_lem

read_first : method_of android 1 nio_buffer_array empty ≡ returned (some 5, cached)
unfolding method_of ensure_initialized of_methods
read_first = ap (λ o. o >>= λ t. returned (t.methods nio_buffer_array, t)) cached_lem

Reachable-IsResolved_example : (cached ≡ empty) ⊎ ((env : ℕ) × IsResolved android env cached)
Reachable-IsResolved_example =
    Reachable-IsResolved android cached
      (stepped empty cached started (method_read 1 nio_buffer_array (some 5) cached read_first))

abbrev array_id : Option ℕ
array_id = some 5

method_of_lem_example :
    (array_id ≢ none)
    × (e : ℕ) × (array_id
        ≡ method_id android e
            (cached.classes (method_row nio_buffer_array).class)
            (method_row nio_buffer_array))
    × IsResolved android e cached
    × (empty ≡ empty → IsResolved android 1 cached)
method_of_lem_example =
    method_of_lem android 1 nio_buffer_array empty cached (some 5) started read_first

nio_access_required_example : initialize_constants desktop 1 ≢ returned cached
nio_access_required_example = nio_access_required desktop 1 refl (λ name signature. refl) cached

-- Object 3 is a buffer of shorts at address 4096, position 10 and limit 20.
abbrev objects : Heap
objects x f =
    if f == 17
    then 1
    else (if f == 7 then 4096 else (if f == 5 then 20 else (if f == 8 then 10 else 0)))

abbrev warm : State
warm = record { heap = objects; cache = cached }

nio_pointer_lem_example :
    (get_nio_buffer_pointer android 1 3 warm
      ≡ returned (
        expected_pointer
            (value warm nio_buffer_address 3)
            (value warm nio_buffer_position 3)
            (value warm nio_buffer_element_size_shift 3),
        warm,
      ))
    × (get_nio_buffer_fields android 1 3 warm
        ≡ returned (
          value warm nio_buffer_position 3,
          value warm nio_buffer_limit 3,
          value warm nio_buffer_element_size_shift 3,
          value warm nio_buffer_address 3,
          warm,
        ))
unfolding of_fields
nio_pointer_lem_example =
    nio_pointer_lem android 1 1 warm cached-IsResolved 3 (omega arith) (omega arith) (omega arith)

-- The pointer is that of the eleventh short.
eleventh : get_nio_buffer_pointer android 1 3 warm ≡ returned (4116, warm)
unfolding of_fields
eleventh = nio_pointer_lem_example.0

abbrev all_descriptors : Objects
all_descriptors = record {
  call_static_object_method = λ heap cls method x. (0, heap);
  call_static_int_method = λ heap cls method x. (0, heap);
  is_instance_of = λ x cls. true;
  new_object = λ heap cls method. (some 9, heap);
}

jni_create_file_descriptor_lem_example :
    (q : Option ℕ × State) × (jni_create_file_descriptor android 1 all_descriptors 42
        (record { heap = objects; cache = cached })
      ≡ returned q)
    × (q.0 ≡ some 9)
    × IsMade android 1 all_descriptors 42 (cached.fields file_descriptor_descriptor) objects q
jni_create_file_descriptor_lem_example =
    jni_create_file_descriptor_lem android 1 1 all_descriptors cached cached-IsResolved 42 objects
      (λ y h. refl)
