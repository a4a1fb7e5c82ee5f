-- ===== src/Lazy/Once.antt =====
-- libnativehelper_lazy.c: the library is loaded and bound at most once, and a call that returns has
-- run the code of its own symbol.
use platform_libnativehelper.Base.{
  Outcome, aborted, returned, ◌>>=◌, ℕ, suc, ◌≡◌, refl, sym, ap, ◌∙◌, subst, ◌≢◌, ◌⊎◌, inl, inr,
  true, false, none, some, List, [], ◌∷◌, map, Bool-cases, Option-cases, All, if_false, if_true,
}
use platform_libnativehelper.Lazy.{
  a_file_descriptor_create, a_file_descriptor_get_fd, a_file_descriptor_set_fd, jni_create_java_vm,
  jni_get_created_java_vms, jni_get_default_java_vm_init_args, jni_get_nio_buffer_base_array,
  jni_get_nio_buffer_base_array_offset, jni_get_nio_buffer_fields, jni_get_nio_buffer_pointer,
  jni_uninitialize_constants, jni_invocation_create, jni_invocation_destroy,
  jni_invocation_get_library, jni_invocation_init, State, ensure_initialized, OpenFlags, bind_all,
  Linker, rtld_now, initialize_once, nulls, all_methods, MethodIndex, load_libnativehelper,
  rtld_noload,
}
use platform_libnativehelper.Lazy.Bound.{
  Filled, address_of, IsComplete, bind_symbols-Filled, all_methods-Consecutive, check_bound_lem,
}

-- The calls of dlopen that load the library.
abbrev pub loads : List OpenFlags → ℕ
loads [] = 0
loads (rtld_now ∷ opens) = suc (loads opens)
loads (rtld_noload ∷ opens) = loads opens

-- Before the first call is forwarded.
pub record IsFresh (s : State) : Type 0 where
  pub not_initialized : s.initialized ≡ false
  pub no_methods : s.g_methods ≡ nulls
  pub no_calls : s.invoked ≡ []
  pub no_vm : s.g_java_vm_created_lazily ≡ false
  pub no_loads : loads s.opens ≡ 0

-- Once the table is bound: every slot is the address of its own method in one library, which was
-- loaded once, and every call went to such an address.
pub record IsReady (k : Linker) (s : State) : Type 0 where
  pub handle : ℕ
  pub is_initialized : s.initialized ≡ true
  pub methods : s.g_methods ≡ map (address_of k handle) all_methods
  pub complete : IsComplete k handle
  pub calls : All (λ c. (m : MethodIndex) × (address_of k handle m ≡ some c.address)) s.invoked
  pub one_load : loads s.opens ≡ 1

abbrev pub IsWellFormed : Linker → State → Type 0
IsWellFormed k s = IsFresh s ⊎ IsReady k s

-- Why the process stops: the library is not loaded, or it lacks a symbol.
pub data IsUnbindable (k : Linker) (s : State) : Type 0 where
  prevented : s.g_prevent_libnativehelper_loading ≡ true → IsUnbindable k s
  not_opened : k.dlopen s.opens rtld_now ≡ none → IsUnbindable k s
  missing :
      (handle : ℕ) (m : MethodIndex)
      → k.dlopen s.opens rtld_now ≡ some handle
      → address_of k handle m ≡ none
      → IsUnbindable k s

All-IsComplete :
    (k : Linker) (handle : ℕ)
    → All (λ m. address_of k handle m ≢ none) all_methods
    → IsComplete k handle
All-IsComplete k handle
      (a, (b, (c, (d, (e, (f, (g, (h, (i, (j, (l, (n, (o, (p, (q, r))))))))))))))) =
    λ m. elim m as (λ m. address_of k handle m ≢ none) [
      | a_file_descriptor_create ↦ a
      | a_file_descriptor_get_fd ↦ b
      | a_file_descriptor_set_fd ↦ c
      | jni_create_java_vm ↦ d
      | jni_get_created_java_vms ↦ e
      | jni_get_default_java_vm_init_args ↦ f
      | jni_get_nio_buffer_base_array ↦ g
      | jni_get_nio_buffer_base_array_offset ↦ h
      | jni_get_nio_buffer_fields ↦ i
      | jni_get_nio_buffer_pointer ↦ j
      | jni_uninitialize_constants ↦ l
      | jni_invocation_create ↦ n
      | jni_invocation_destroy ↦ o
      | jni_invocation_get_library ↦ p
      | jni_invocation_init ↦ q
    ]

-- The table of a state that has none yet.
pub bind_all_lem :
    (k : Linker) (handle : ℕ) (s : State)
    → s.g_methods ≡ nulls
    → ((bind_all k (some handle, s)
          ≡ returned (record s { g_methods = map (address_of k handle) all_methods }))
        × IsComplete k handle)
      ⊎ ((bind_all k (some handle, s) ≡ aborted)
          × (m : MethodIndex) × (address_of k handle m ≡ none))
unfolding bind_all Filled
bind_all_lem k handle s e =
    elim (bind_symbols-Filled k handle all_methods [] nulls all_methods-Consecutive refl) [
      | inl (q, h) ↦
          inl (rw (e, q) (rw (check_bound_lem k handle all_methods h)), All-IsComplete k handle h)
      | inr (q, m, h) ↦ inr (rw (e, q), m, h)
    ]

-- The ends of the first part of a forwarded call.
pub data Ensured (k : Linker) (s : State) (o : Outcome State) : Type 0 where
  stopped : IsFresh s → IsUnbindable k s → o ≡ aborted → Ensured k s o
  ready :
      (t : State)
      → o ≡ returned t
      → IsReady k t
      → t.invoked ≡ s.invoked
      → t.g_java_vm_created_lazily ≡ s.g_java_vm_created_lazily
      → Ensured k s o

abbrev finished : State → Outcome State
finished t = returned (record t { initialized = true })

abbrev opening : State → State
opening s = record s { opens = rtld_now ∷ s.opens }

ensure_fresh : (k : Linker) (s : State) → IsFresh s → Ensured k s (ensure_initialized k s)
unfolding ensure_initialized initialize_once load_libnativehelper bind_all
ensure_fresh k s h = elim (Bool-cases s.g_prevent_libnativehelper_loading) [
  | inl p ↦
      stopped h (prevented p)
        (if_false _ _ _ h.not_initialized ∙ ap (λ r. bind_all k r >>= finished) (if_true _ _ _ p))
  | inr p ↦ elim (Option-cases (k.dlopen s.opens rtld_now)) [
    | inl q ↦ stopped h (not_opened q) (
        if_false _ _ _ h.not_initialized
        ∙ ap (λ r. bind_all k r >>= finished) (if_false _ _ _ p)
        ∙ ap (λ o. bind_all k (o, opening s) >>= finished) q)
    | inr (handle, q) ↦ elim (bind_all_lem k handle (opening s) h.no_methods) [
      | inl (e, c) ↦
          ready
            (record s {
              opens = rtld_now ∷ s.opens;
              g_methods = map (address_of k handle) all_methods;
              initialized = true;
            })
            (if_false _ _ _ h.not_initialized
              ∙ ap (λ r. bind_all k r >>= finished) (if_false _ _ _ p)
              ∙ ap (λ o. bind_all k (o, opening s) >>= finished) q
              ∙ ap (λ r. r >>= finished) e)
            (record {
              handle = handle;
              is_initialized = refl;
              methods = refl;
              complete = c;
              calls = subst (All _) (sym h.no_calls) tt;
              one_load = ap suc h.no_loads;
            })
            refl refl
      | inr (e, m, n) ↦ stopped h (missing handle m q n) (
          if_false _ _ _ h.not_initialized
          ∙ ap (λ r. bind_all k r >>= finished) (if_false _ _ _ p)
          ∙ ap (λ o. bind_all k (o, opening s) >>= finished) q
          ∙ ap (λ r. r >>= finished) e)
    ]
  ]
]

pub ensure_initialized-Ensured :
    (k : Linker) (s : State) → IsWellFormed k s → Ensured k s (ensure_initialized k s)
unfolding ensure_initialized
ensure_initialized-Ensured k s (inl h) = ensure_fresh k s h
ensure_initialized-Ensured k s (inr h) = ready s (if_true _ _ _ h.is_initialized) h refl refl
