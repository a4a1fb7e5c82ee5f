-- ===== src/Platform/Descriptors.antt =====
-- file_descriptor_jni.c: a descriptor that is set is read back.
use platform_libnativehelper.Base.{
  bind_returned, if_true, if_false, returned, ◌>>=◌, ℕ, ◌≡◌, refl, sym, ap, ◌∙◌, ◌≢◌, ◌⊎◌, inl, inr,
  true, false, ◌&&◌, some, ◌==◌, if◌then◌else◌, ==_iff, Bool-cases, and_left, and_right, and_intro,
  Option-cases,
}
use platform_libnativehelper.Constants.Initialize.{ensure_initialized, class_of}
use platform_libnativehelper.Constants.{
  Vm, Cache, ClassConstant, file_descriptor, file_descriptor_descriptor,
}
use platform_libnativehelper.Platform.{
  Objects, Heap, get_fd, ensure_argument_is_file_descriptor, set_fd, set_field, State,
}
use platform_libnativehelper.Constants.Resolved.{IsResolved}
use platform_libnativehelper.Platform.Buffers.{read_ready, field_of_ready, value_at}

pub class_of_ready :
    (vm : Vm) (env e : ℕ) (c : Cache) (k : ClassConstant)
    → IsResolved vm e c
    → class_of vm env k c ≡ returned (c.classes k, c)
unfolding class_of ensure_initialized
class_of_ready vm env e c k r =
    ap (λ o. o >>= λ t. returned (t.classes k, t)) (if_true _ _ _ r.is_initialized)

module _ (vm : Vm) (env e : ℕ) (o : Objects) (object : ℕ) (cache : Cache)
    (r : IsResolved vm e cache)
    (fits : o.is_instance_of object (cache.classes file_descriptor) ≡ true) where
  ensure_ready :
      (heap : Heap)
      → ensure_argument_is_file_descriptor vm env o
          (some object)
          (record { heap = heap; cache = cache })
        ≡ returned (object, record { heap = heap; cache = cache })
  unfolding ensure_argument_is_file_descriptor
  ensure_ready heap =
      bind_returned _ _ _ (class_of_ready vm env e cache file_descriptor r) ∙ if_true _ _ _ fits

  -- The heap with the field set.
  abbrev pub written : Heap → ℕ → ℕ → Heap
  written heap field value = λ x f. if (x == object) && (f == field) then value else heap x f

  set_fd_ready :
      (heap : Heap) (fd field : ℕ)
      → cache.fields file_descriptor_descriptor ≡ some field
      → set_fd vm env o (some object) fd (record { heap = heap; cache = cache })
        ≡ returned (record { heap = written heap field fd; cache = cache })
  unfolding set_fd set_field
  set_fd_ready heap fd field q =
      bind_returned _ _ _ (ensure_ready heap)
      ∙ bind_returned _ _ _ (
          field_of_ready vm env e cache file_descriptor_descriptor r
          ∙ ap (λ x. returned (x, cache)) q)

  elsewhere : (x f field : ℕ) → (x ≢ object) ⊎ (f ≢ field) → ((x == object) && (f == field)) ≡ false
  elsewhere x f field h = elim (Bool-cases ((x == object) && (f == field))) [
    | inl b ↦ elim h [
      | inl n ↦ absurd (n ((==_iff x object).0 (and_left _ _ b)))
      | inr n ↦ absurd (n ((==_iff f field).0 (and_right _ _ b)))
    ]
    | inr b ↦ b
  ]

  -- When the constants are cached and the object is a FileDescriptor, AFileDescriptor_setFd
  -- returns, AFileDescriptor_getFd then returns the number that was set and changes nothing, and
  -- no other field of any object has changed.
  pub get_fd-set_fd :
      (heap : Heap) (fd : ℕ)
      → (t : State) × (set_fd vm env o (some object) fd (record { heap = heap; cache = cache })
          ≡ returned t)
        × (get_fd vm env o (some object) t ≡ returned (fd, t))
        × ((x f : ℕ)
            → (x ≢ object) ⊎ (some f ≢ cache.fields file_descriptor_descriptor)
            → t.heap x f ≡ heap x f)
  unfolding get_fd
  get_fd-set_fd heap fd = elim (Option-cases (cache.fields file_descriptor_descriptor)) [
    | inl n ↦ absurd ((r.fields file_descriptor_descriptor).1 n)
    | inr (field, q) ↦ (
      record { heap = written heap field fd; cache = cache },
      set_fd_ready heap fd field q,
      bind_returned _ _ _ (ensure_ready (written heap field fd))
          ∙ read_ready vm env e (record { heap = written heap field fd; cache = cache }) r
              file_descriptor_descriptor object
          ∙ ap
              (λ z. returned (
                value_at (written heap field fd) object z,
                record { heap = written heap field fd; cache = cache },
              ))
              q
          ∙ ap (λ z. returned (z, record { heap = written heap field fd; cache = cache }))
              (if_true ((object == object) && (field == field)) fd (heap object field)
                (and_intro _ _ ((==_iff object object).1 refl) ((==_iff field field).1 refl))),
      λ x f h. if_false ((x == object) && (f == field)) fd (heap x f) (
          elsewhere x f field
            (elim h [ inl n ↦ inl n | inr n ↦ inr (λ w. n (ap some w ∙ sym q)) ])),
    )
  ]
