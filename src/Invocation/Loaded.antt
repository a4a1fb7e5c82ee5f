-- ===== src/Invocation/Loaded.antt =====
-- JniInvocation.c over every sequence of calls: the instance holds nothing, or a library with all
-- of its functions.
use platform_libnativehelper.Base.{
  same_string, ℕ, ◌≡◌, refl, sym, ap, ◌∙◌, subst, ◌⊎◌, inl, inr, Bool, true, false, Option, none,
  some, List, [], ◌∷◌, ◌++◌, append_assoc, if◌then◌else◌, Bool-cases,
}
use platform_libnativehelper.Invocation.{
  System, Linker, DlCall, init, find_all, Process, get_library, fall_back, find_symbol, opened,
  k_default_jni_invocation_library, open_library, get_library_with, looked_up,
  sym_get_created_java_vms, is_debuggable, find_args, find_created, sym_create_java_vm,
  sym_get_default_java_vm_init_args, find_create, default_opened, zeroed, destroy,
}

-- The instance is the outcome of these calls of the dynamic linker, in this order: the library was
-- opened under the name, then the three symbols were found in it.
pub record IsLoaded (y : System) (p : Process) : Type 0 where
  pub name : List ℕ
  pub library : ℕ
  pub args : ℕ
  pub create_vm : ℕ
  pub created : ℕ
  pub later : List DlCall
  pub before : List DlCall
  pub filled : p.g_impl ≡ record {
    jni_provider_library_name = some name;
    jni_provider_library = some library;
    jni_get_default_java_vm_init_args = some args;
    jni_create_java_vm = some create_vm;
    jni_get_created_java_vms = some created;
  }
  pub linked :
      p.calls
      ≡ later
        ++ (looked_up library sym_get_created_java_vms (some created)
            ∷ looked_up library sym_create_java_vm (some create_vm)
            ∷ looked_up library sym_get_default_java_vm_init_args (some args)
            ∷ opened name (some library)
            ∷ before)
  pub permitted : (name ≡ k_default_jni_invocation_library) ⊎ (is_debuggable y ≡ true)

-- What a call of init comes to: nothing but more calls of the linker, or a library.
abbrev pub IsInitialized : System → Process → Bool × Process → Type 0
IsInitialized y p (false, q) =
    (q.g_impl ≡ p.g_impl) × (more : List DlCall) × (q.calls ≡ more ++ p.calls)
IsInitialized y p (true, q) = IsLoaded y q

module _ (k : Linker) (y : System) where
  abbrev Opened : List DlCall → Option (List ℕ × ℕ) × List DlCall → Type 0
  Opened start (none, calls) = (more : List DlCall) × (calls ≡ more ++ start)
  Opened start (some (name, library), calls) =
      (more : List DlCall) × (calls ≡ opened name (some library) ∷ (more ++ start))
      × ((name ≡ k_default_jni_invocation_library) ⊎ (is_debuggable y ≡ true))

  get_library_permitted :
      (library : Option (List ℕ)) (b : Bool)
      → (get_library y library b ≡ k_default_jni_invocation_library) ⊎ (is_debuggable y ≡ true)
  unfolding get_library get_library_with
  get_library_permitted library b = elim (Bool-cases (is_debuggable y)) [
    | inl e ↦ inr e
    | inr e ↦ inl (rw e)
  ]

  default_opened-Opened :
      (o : Option ℕ) (c : DlCall) (start : List DlCall)
      → Opened start (default_opened (o, opened k_default_jni_invocation_library o ∷ (c ∷ start)))
  unfolding default_opened
  default_opened-Opened none c start =
      (opened k_default_jni_invocation_library none ∷ (c ∷ []), refl)
  default_opened-Opened (some library) c start = (c ∷ [], refl, inl refl)

  choice-Opened :
      (b : Bool) (start : List DlCall) (a c : Option (List ℕ × ℕ) × List DlCall)
      → Opened start a
      → Opened start c
      → Opened start (if b then a else c)
  choice-Opened true start a c ha hc = ha
  choice-Opened false start a c ha hc = hc

  fall_back-Opened :
      (name : List ℕ) (o : Option ℕ) (start : List DlCall)
      → (name ≡ k_default_jni_invocation_library) ⊎ (is_debuggable y ≡ true)
      → Opened start (fall_back k name (o, opened name o ∷ start))
  unfolding fall_back open_library
  fall_back-Opened name (some library) start h = ([], refl, h)
  fall_back-Opened name none start h =
      choice-Opened (same_string name k_default_jni_invocation_library) start
        (none, opened name none ∷ start) _ (opened name none ∷ [], refl)
        (default_opened-Opened _ (opened name none) start)

  module _ (p : Process) (name : List ℕ) (library : ℕ) (more : List DlCall)
      (permitted : (name ≡ k_default_jni_invocation_library) ⊎ (is_debuggable y ≡ true)) where
    find_created-IsInitialized :
        (args create_vm : ℕ) (o : Option ℕ)
        → IsInitialized y p (
            find_created name library p.g_impl args create_vm (
              o,
              looked_up library sym_get_created_java_vms o
                  ∷ looked_up library sym_create_java_vm (some create_vm)
                  ∷ looked_up library sym_get_default_java_vm_init_args (some args)
                  ∷ opened name (some library)
                  ∷ (more ++ p.calls),
            ))
    unfolding find_created
    find_created-IsInitialized args create_vm none = (refl, _ ∷ _ ∷ _ ∷ _ ∷ more, refl)
    find_created-IsInitialized args create_vm (some created) = record {
      name = name;
      library = library;
      args = args;
      create_vm = create_vm;
      created = created;
      later = [];
      before = more ++ p.calls;
      filled = refl;
      linked = refl;
      permitted = permitted;
    }

    find_create-IsInitialized :
        (args : ℕ) (o : Option ℕ)
        → IsInitialized y p (
            find_create k name library p.g_impl args (
              o,
              looked_up library sym_create_java_vm o
                  ∷ looked_up library sym_get_default_java_vm_init_args (some args)
                  ∷ opened name (some library)
                  ∷ (more ++ p.calls),
            ))
    unfolding find_create find_symbol
    find_create-IsInitialized args none = (refl, _ ∷ _ ∷ _ ∷ more, refl)
    find_create-IsInitialized args (some create_vm) = find_created-IsInitialized args create_vm _

    find_args-IsInitialized :
        (o : Option ℕ)
        → IsInitialized y p (
            find_args k name library p.g_impl (
              o,
              looked_up library sym_get_default_java_vm_init_args o
                  ∷ opened name (some library)
                  ∷ (more ++ p.calls),
            ))
    unfolding find_args find_symbol
    find_args-IsInitialized none = (refl, _ ∷ _ ∷ more, refl)
    find_args-IsInitialized (some args) = find_create-IsInitialized args _

  find_all-IsInitialized :
      (p : Process) (o : Option (List ℕ × ℕ) × List DlCall)
      → Opened p.calls o
      → IsInitialized y p (find_all k p.g_impl o)
  unfolding find_all find_symbol
  find_all-IsInitialized p (none, calls) (more, e) = (refl, more, e)
  find_all-IsInitialized p (some (name, library), calls) (more, e, permitted) =
      subst
        (λ c. IsInitialized y p (
          find_args k name library p.g_impl (
            k.dl_get_symbol c library sym_get_default_java_vm_init_args,
            looked_up library sym_get_default_java_vm_init_args
                  (k.dl_get_symbol c library sym_get_default_java_vm_init_args)
                ∷ c,
          )))
        (sym e) (find_args-IsInitialized p name library more permitted _)

  -- An init that answers false leaves the instance as it was; one that answers true fills in a
  -- library, which is the default one unless the build is debuggable, and the addresses that the
  -- linker gave for its three symbols, all of them.
  pub init-IsInitialized :
      (library : Option (List ℕ)) (p : Process) → IsInitialized y p (init k y library p)
  unfolding init open_library
  init-IsInitialized library p =
      find_all-IsInitialized p _
        (fall_back-Opened _ _ p.calls (get_library_permitted library y.is_android))

-- A sequence of calls of init and destroy, which alone change the process, on the one instance:
-- create hands out its address, and the exports only read it.
pub data Reachable (k : Linker) (y : System) : Process → Type 0 where
  loaded : Reachable k y (record { g_impl = zeroed; calls = [] })
  initialized :
      (library : Option (List ℕ)) (p : Process)
      → Reachable k y p
      → Reachable k y ((init k y library p).1)
  destroyed : (p : Process) → Reachable k y p → Reachable k y (destroy p)

abbrev pub IsWellFormed : System → Process → Type 0
IsWellFormed y p = (p.g_impl ≡ zeroed) ⊎ IsLoaded y p

later-IsLoaded :
    (y : System) (p q : Process) (more : List DlCall)
    → q.g_impl ≡ p.g_impl
    → q.calls ≡ more ++ p.calls
    → IsLoaded y p
    → IsLoaded y q
later-IsLoaded y p q more g c h = record {
  name = h.name;
  library = h.library;
  args = h.args;
  create_vm = h.create_vm;
  created = h.created;
  later = more ++ h.later;
  before = h.before;
  filled = g ∙ h.filled;
  linked = c ∙ ap (λ t. more ++ t) h.linked ∙ sym (append_assoc more h.later _);
  permitted = h.permitted;
}

init-IsWellFormed :
    (y : System) (p : Process) (r : Bool × Process)
    → IsInitialized y p r
    → IsWellFormed y p
    → IsWellFormed y r.1
init-IsWellFormed y p (true, q) h w = inr h
init-IsWellFormed y p (false, q) (g, more, c) (inl e) = inl (g ∙ e)
init-IsWellFormed y p (false, q) (g, more, c) (inr l) = inr (later-IsLoaded y p q more g c l)

-- After any sequence of calls of init and destroy the instance is as it was in the beginning, or
-- it holds a library with the addresses that the linker gave for all its three symbols; that
-- library is the default one unless the build is debuggable.
pub Reachable-IsWellFormed :
    (k : Linker) (y : System) (p : Process) → Reachable k y p → IsWellFormed y p
unfolding destroy
Reachable-IsWellFormed k y p loaded = inl refl
Reachable-IsWellFormed k y p (initialized library q r) =
    init-IsWellFormed y q (init k y library q) (init-IsInitialized k y library q)
      (Reachable-IsWellFormed k y q r)
Reachable-IsWellFormed k y p (destroyed q r) = inl refl
