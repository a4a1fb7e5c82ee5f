-- ===== src/Platform/Wrapper.antt =====
-- include_platform/nativehelper/JNIPlatformHelp.h: the functions of file descriptors for C++.
use platform_libnativehelper.Base.{◌>>=◌}
use platform_libnativehelper.Base.{
  bind_returned, if_true, Outcome, returned, ℕ, ◌-◌, ◌^◌, ◌≡◌, refl, ap, ◌∙◌, ◌≢◌, ◌⊎◌, true,
  Option, none, some, List, codes,
}
use platform_libnativehelper.Constants.Initialize.{method_of, ensure_initialized}
use platform_libnativehelper.Constants.{
  Vm, Cache, MethodConstant, file_descriptor, file_descriptor_init, file_descriptor_descriptor,
}
use platform_libnativehelper.Platform.{Objects, State, create, get_fd, set_fd, Heap}
use platform_libnativehelper.Constants.Resolved.{IsResolved}
use platform_libnativehelper.Platform.Descriptors.{get_fd-set_fd, class_of_ready}

abbrev pub no_descriptor : ℕ
no_descriptor = 2 ^ 32 - 1

module _ (vm : Vm) (env : ℕ) (o : Objects) where
  abbrev pub with_fd : ℕ → Option ℕ × State → Outcome (Option ℕ × State)
  with_fd fd (none, s) = returned (none, s)
  with_fd fd (some x, s) = set_fd vm env o (some x) fd s >>= λ t. returned (some x, t)

  unfoldable pub jni_create_file_descriptor : ℕ → State → Outcome (Option ℕ × State)
  jni_create_file_descriptor fd s = create vm env o s >>= λ r. with_fd fd r

  unfoldable pub jni_get_fd_from_file_descriptor : Option ℕ → State → Outcome (ℕ × State)
  jni_get_fd_from_file_descriptor none s = returned (no_descriptor, s)
  jni_get_fd_from_file_descriptor (some x) s = get_fd vm env o (some x) s

  -- The message of the NullPointerException that is thrown, or `none`.
  unfoldable pub jni_set_file_descriptor_of_fd :
      Option ℕ → ℕ → State → Outcome (Option (List ℕ) × State)
  jni_set_file_descriptor_of_fd none value s = returned (some (codes "fileDescriptor is null"), s)
  jni_set_file_descriptor_of_fd (some x) value s =
      set_fd vm env o (some x) value s >>= λ t. returned (none, t)

method_of_ready :
    (vm : Vm) (env e : ℕ) (c : Cache) (k : MethodConstant)
    → IsResolved vm e c
    → method_of vm env k c ≡ returned (c.methods k, c)
unfolding method_of ensure_initialized
method_of_ready vm env e c k r =
    ap (λ o. o >>= λ t. returned (t.methods k, t)) (if_true _ _ _ r.is_initialized)

-- What a descriptor is that was made for a number: none, and it reads as -1; or an object, which
-- reads as the number, and no other field differs from the heap where it was made.
abbrev pub IsMade : Vm → ℕ → Objects → ℕ → Option ℕ → Heap → Option ℕ × State → Type 0
IsMade vm env o fd field heap (none, t) =
    jni_get_fd_from_file_descriptor vm env o none t ≡ returned (no_descriptor, t)
IsMade vm env o fd field heap (some x, t) =
    (jni_get_fd_from_file_descriptor vm env o (some x) t ≡ returned (fd, t))
    × ((y f : ℕ) → (y ≢ x) ⊎ (some f ≢ field) → t.heap y f ≡ heap y f)

module _ (vm : Vm) (env e : ℕ) (o : Objects) (cache : Cache) (r : IsResolved vm e cache) where
  abbrev pub made : Heap → Option ℕ × Heap
  made heap = o.new_object heap (cache.classes file_descriptor) (cache.methods file_descriptor_init)

  create_ready :
      (heap : Heap)
      → create vm env o (record { heap = heap; cache = cache })
        ≡ returned ((made heap).0, record { heap = (made heap).1; cache = cache })
  unfolding create
  create_ready heap =
      bind_returned _ _ _ (class_of_ready vm env e cache file_descriptor r)
      ∙ bind_returned _ _ _ (method_of_ready vm env e cache file_descriptor_init r)

  with_fd-IsMade :
      (fd : ℕ) (x : Option ℕ) (heap : Heap)
      → ((y : ℕ) → x ≡ some y → o.is_instance_of y (cache.classes file_descriptor) ≡ true)
      → (q : Option ℕ × State) × (with_fd vm env o fd (x, record { heap = heap; cache = cache })
          ≡ returned q)
        × (q.0 ≡ x)
        × IsMade vm env o fd (cache.fields file_descriptor_descriptor) heap q
  unfolding jni_get_fd_from_file_descriptor
  with_fd-IsMade fd none heap fits =
      ((none, record { heap = heap; cache = cache }), refl, refl, refl)
  with_fd-IsMade fd (some x) heap fits =
      let s = get_fd-set_fd vm env e o x cache r (fits x refl) heap fd in
      ((some x, s.0), bind_returned _ _ _ s.1, refl, (s.2, s.3))

  -- When the constants are cached and the object that NewObject makes is a FileDescriptor,
  -- jniCreateFileDescriptor returns that object, jniGetFDFromFileDescriptor then reads the number
  -- from it and changes nothing, and no other field differs from the heap where it was made; where
  -- NewObject gives NULL, NULL is returned and reads as -1.
  pub jni_create_file_descriptor_lem :
      (fd : ℕ) (heap : Heap)
      → ((y : ℕ)
          → (made heap).0 ≡ some y
          → o.is_instance_of y (cache.classes file_descriptor) ≡ true)
      → (q : Option ℕ × State) × (jni_create_file_descriptor vm env o fd
            (record { heap = heap; cache = cache })
          ≡ returned q)
        × (q.0 ≡ (made heap).0)
        × IsMade vm env o fd (cache.fields file_descriptor_descriptor) (made heap).1 q
  unfolding jni_create_file_descriptor
  jni_create_file_descriptor_lem fd heap fits =
      let w = with_fd-IsMade fd (made heap).0 (made heap).1 fits in
      (w.0, bind_returned _ _ _ (create_ready heap) ∙ w.1, w.2, w.3)
