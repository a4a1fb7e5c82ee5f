-- ===== src/Invocation/Choice.antt =====
-- JniInvocation.c: which library an init opens, when it succeeds, and what the exports do then.
use platform_libnativehelper.Base.{
  some_not_none, same_string, aborted, returned, ℕ, ◌≡◌, refl, sym, ◌≢◌, ◌↔◌, ◌⊎◌, inl, inr, Bool,
  true, false, Option, none, some, List, ◌∷◌, if◌then◌else◌, false≢true,
}
use platform_libnativehelper.Invocation.{
  find_all, DlCall, create, Linker, default_opened, fall_back, sym_get_default_java_vm_init_args,
  System, open_library, opened, find_symbol, Process, JniInvocationImpl, find_created, find_create,
  find_args, sym_create_java_vm, k_default_jni_invocation_library, sym_get_created_java_vms, zeroed,
  init, get_library,
}
use platform_libnativehelper.Invocation.Exports.{
  Provider, get_default_java_vm_init_args, create_java_vm, get_created_java_vms, jni_ok,
}
use platform_libnativehelper.Invocation.Loaded.{Reachable, IsLoaded, Reachable-IsWellFormed}

-- The exports and create on an instance that holds nothing: create hands it out, two functions
-- stop the process, and no VM is reported.
pub record IsIdle (r : Provider) (p : Process) : Type 0 where
  pub free : create p.g_impl ≡ true
  pub args_abort : (v : ℕ) → get_default_java_vm_init_args r p.g_impl v ≡ aborted
  pub create_abort : (a b c : ℕ) → create_java_vm r p.g_impl a b c ≡ aborted
  pub no_vms : (a b : ℕ) → get_created_java_vms r p.g_impl a b ≡ (jni_ok, 0)

-- The exports and create on an instance that holds a library: create refuses, and every function
-- runs at the address that the linker gave for its own symbol.
pub record IsServing (r : Provider) (y : System) (p : Process) : Type 0 where
  pub is_loaded : IsLoaded y p
  pub taken : create p.g_impl ≡ false
  pub args_run :
      (v : ℕ)
      → get_default_java_vm_init_args r p.g_impl v
        ≡ returned (r.run_get_default_java_vm_init_args is_loaded.args v)
  pub create_run :
      (a b c : ℕ)
      → create_java_vm r p.g_impl a b c ≡ returned (r.run_create_java_vm is_loaded.create_vm a b c)
  pub vms_run :
      (a b : ℕ)
      → get_created_java_vms r p.g_impl a b ≡ r.run_get_created_java_vms is_loaded.created a b

zeroed-IsIdle : (r : Provider) (p : Process) → p.g_impl ≡ zeroed → IsIdle r p
unfolding create get_default_java_vm_init_args create_java_vm get_created_java_vms
zeroed-IsIdle r p e = record {
  free = rw e;
  args_abort = λ v. rw e;
  create_abort = λ a b c. rw e;
  no_vms = λ a b. rw e;
}

loaded-IsServing : (r : Provider) (y : System) (p : Process) → IsLoaded y p → IsServing r y p
unfolding create get_default_java_vm_init_args create_java_vm get_created_java_vms
loaded-IsServing r y p h = record {
  is_loaded = h;
  taken = rw h.filled;
  args_run = λ v. rw h.filled;
  create_run = λ a b c. rw h.filled;
  vms_run = λ a b. rw h.filled;
}

-- After any sequence of calls of init and destroy either create hands out the instance, and then
-- the exports JNI_GetDefaultJavaVMInitArgs and JNI_CreateJavaVM stop the process and
-- JNI_GetCreatedJavaVMs reports no VM, or create refuses, and then all three run the code at the
-- address that the linker gave for their own symbol of the one library loaded.
pub exports_agree :
    (k : Linker) (y : System) (r : Provider) (p : Process)
    → Reachable k y p
    → IsIdle r p ⊎ IsServing r y p
exports_agree k y r p h = elim (Reachable-IsWellFormed k y p h) [
  | inl e ↦ inl (zeroed-IsIdle r p e)
  | inr l ↦ inr (loaded-IsServing r y p l)
]

-- After these calls the linker opens the library of this name, or, if that is another one and is
-- not opened, the default library.
abbrev pub IsOpenable : Linker → List ℕ → List DlCall → Type 0
IsOpenable k name calls =
    (k.dl_open_library calls name ≢ none)
    ⊎ ((same_string name k_default_jni_invocation_library ≡ false)
        × (k.dl_open_library (opened name (k.dl_open_library calls name) ∷ calls)
              k_default_jni_invocation_library
            ≢ none))

-- The linker finds each of the three symbols in every library it has opened.
abbrev pub IsComplete : Linker → Type 0
IsComplete k =
    (calls : List DlCall) (library : ℕ)
    → (k.dl_get_symbol calls library sym_get_default_java_vm_init_args ≢ none)
      × (k.dl_get_symbol calls library sym_create_java_vm ≢ none)
      × (k.dl_get_symbol calls library sym_get_created_java_vms ≢ none)

module _ (k : Linker) (g : JniInvocationImpl) (name : List ℕ) (library : ℕ) where
  find_created_some :
      (args create_vm : ℕ) (o : Option ℕ) (calls : List DlCall)
      → o ≢ none
      → (find_created name library g args create_vm (o, calls)).0 ≡ true
  unfolding find_created
  find_created_some args create_vm none calls h = absurd (h refl)
  find_created_some args create_vm (some a) calls h = refl

  find_create_some :
      (args : ℕ) (o : Option ℕ) (calls : List DlCall)
      → IsComplete k
      → o ≢ none
      → (find_create k name library g args (o, calls)).0 ≡ true
  unfolding find_create find_symbol
  find_create_some args none calls c h = absurd (h refl)
  find_create_some args (some a) calls c h = find_created_some args a _ _ ((c calls library).2)

  find_args_some :
      (o : Option ℕ) (calls : List DlCall)
      → IsComplete k
      → o ≢ none
      → (find_args k name library g (o, calls)).0 ≡ true
  unfolding find_args find_symbol
  find_args_some none calls c h = absurd (h refl)
  find_args_some (some a) calls c h = find_create_some a _ _ c ((c calls library).1)

IsFound : Option (List ℕ × ℕ) × List DlCall → Type 0
IsFound o = o.0 ≢ none

find_all_iff :
    (k : Linker) (g : JniInvocationImpl) (o : Option (List ℕ × ℕ) × List DlCall)
    → IsComplete k
    → ((find_all k g o).0 ≡ true) ↔ IsFound o
unfolding find_all find_symbol IsFound
find_all_iff k g (none, calls) c = (λ h. absurd (false≢true h), λ h. absurd (h refl))
find_all_iff k g (some (name, library), calls) c =
    (λ h. some_not_none _, λ h. find_args_some k g name library _ _ c ((c calls library).0))

default_opened_iff :
    (o : Option ℕ) (calls : List DlCall) → IsFound (default_opened (o, calls)) ↔ (o ≢ none)
unfolding default_opened IsFound
default_opened_iff none calls = (λ h. absurd (h refl), λ h. absurd (h refl))
default_opened_iff (some l) calls = (λ h. some_not_none l, λ h. some_not_none _)

choice_iff :
    (b : Bool) (a c : Option (List ℕ × ℕ) × List DlCall)
    → a.0 ≡ none
    → IsFound (if b then a else c) ↔ ((b ≡ false) × IsFound c)
unfolding IsFound
choice_iff true a c e = (λ h. absurd (h e), λ h. absurd (false≢true (sym h.0)))
choice_iff false a c e = (λ h. (refl, h), λ h. h.1)

fall_back_iff :
    (k : Linker) (name : List ℕ) (o : Option ℕ) (calls : List DlCall)
    → IsFound (fall_back k name (o, calls)) ↔ (
        (o ≢ none)
        ⊎ ((same_string name k_default_jni_invocation_library ≡ false)
            × (k.dl_open_library calls k_default_jni_invocation_library ≢ none)))
unfolding fall_back open_library IsFound
fall_back_iff k name (some l) calls = (λ h. inl (some_not_none l), λ h. some_not_none _)
fall_back_iff k name none calls = (
  λ h. inr (
    ((choice_iff _ (none, calls) _ refl).0 h).0,
    (default_opened_iff _ _).0 (((choice_iff _ (none, calls) _ refl).0 h).1),
  ),
  λ h. elim h [
    | inl h ↦ absurd (h refl)
    | inr h ↦ (choice_iff _ (none, calls) _ refl).1 (h.0, (default_opened_iff _ _).1 h.1)
  ],
)

-- When the linker finds the three symbols in every library, init answers true exactly if the
-- library chosen, or the default one after it, can be opened. The library chosen is the caller's
-- on a debuggable build, then that of the system property on Android, and the default one else.
pub init_iff :
    (k : Linker) (y : System) (library : Option (List ℕ)) (p : Process)
    → IsComplete k
    → ((init k y library p).0 ≡ true) ↔ IsOpenable k (get_library y library y.is_android) p.calls
unfolding init open_library
init_iff k y library p c = (
  λ h. (fall_back_iff k _ _ _).0 ((find_all_iff k p.g_impl _ c).0 h),
  λ h. (find_all_iff k p.g_impl _ c).1 ((fall_back_iff k _ _ _).1 h),
)
