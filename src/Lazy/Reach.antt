-- ===== src/Lazy/Reach.antt =====
-- libnativehelper_lazy.c: every sequence of calls of its functions.
use platform_libnativehelper.Base.{
  if_true, if_false, aborted≢returned, returned_injective, Outcome, aborted, returned, ◌>>=◌, ℕ,
  ◌≡◌, refl, sym, ap, ◌∙◌, subst, inl, inr, Bool, true, false, Option, none, some, List, ◌∷◌, ◌==◌,
  if◌then◌else◌, Bool-cases, Option-cases, get_elem?,
}
use platform_libnativehelper.Lazy.Forward.{
  invoke_method, call_method, create_java_vm, get_created_java_vms, vm_created, count_vms,
  count_loaded, counted,
}
use platform_libnativehelper.Lazy.{
  Linker, Code, MethodIndex, State, start, index, prevent_lazy_loading_for_tests, OpenFlags,
  load_libnativehelper, rtld_noload,
}
use platform_libnativehelper.Lazy.Once.{
  IsFresh, IsReady, IsWellFormed, IsUnbindable, ensure_initialized-Ensured, ready, stopped, loads,
}
use platform_libnativehelper.Lazy.Bound.{address_of, get_elem-index}

-- The ends of a forwarded call: the process is stopped, which only the first call can do and only
-- for want of the library or of a symbol; or the code of this method in the one library loaded has
-- run once, with the arguments as given, and its result is returned. No call goes through NULL.
pub data Forwarded (k : Linker) (c : Code) (m : MethodIndex) (args : List ℕ) (s : State)
    (o : Outcome (ℕ × State)) : Type 0 where
  stops : IsFresh s → IsUnbindable k s → o ≡ aborted → Forwarded k c m args s o
  ran :
      (t : State) (ready : IsReady k t) (a : ℕ)
      → o ≡ returned (c.result s.invoked (record { address = a; arguments = args }), t)
      → address_of k ready.handle m ≡ some a
      → t.invoked ≡ record { address = a; arguments = args } ∷ s.invoked
      → t.g_java_vm_created_lazily ≡ s.g_java_vm_created_lazily
      → Forwarded k c m args s o

call_ready :
    (k : Linker) (c : Code) (m : MethodIndex) (args : List ℕ) (s t : State)
    → IsReady k t
    → t.invoked ≡ s.invoked
    → t.g_java_vm_created_lazily ≡ s.g_java_vm_created_lazily
    → (o : Outcome (ℕ × State)) → o ≡ call_method c (get_elem? t.g_methods (index m)) args t
    → Forwarded k c m args s o
unfolding call_method
call_ready k c m args s t h e l o q = elim (Option-cases (address_of k h.handle m)) [
  | inl n ↦ absurd (h.complete m n)
  | inr (a, n) ↦
      ran (record t { invoked = record { address = a; arguments = args } ∷ t.invoked })
        (record {
          handle = h.handle;
          is_initialized = h.is_initialized;
          methods = h.methods;
          complete = h.complete;
          calls = ((m, n), h.calls);
          one_load = h.one_load;
        })
        a
        (q
          ∙ ap (λ x. call_method c x args t)
              (ap (λ x. get_elem? x (index m)) h.methods
                ∙ get_elem-index (address_of k h.handle) m
                ∙ ap some n)
          ∙ ap
              (λ x. returned (
                c.result x (record { address = a; arguments = args }),
                record t { invoked = record { address = a; arguments = args } ∷ t.invoked },
              ))
              e)
        n (ap (◌∷◌ (record { address = a; arguments = args })) e) l
]

-- In a state that calls can lead to, a forwarded call stops the process, which only the first can
-- do and only when the library or a symbol is missing, or runs the code at the address of its own
-- symbol in the one library loaded, once, with its arguments, and returns what that returns.
pub invoke_method-Forwarded :
    (k : Linker) (c : Code) (m : MethodIndex) (args : List ℕ) (s : State)
    → IsWellFormed k s
    → Forwarded k c m args s (invoke_method k c m args s)
unfolding invoke_method
invoke_method-Forwarded k c m args s h =
    let calling : State → Outcome (ℕ × State) =
      λ t. call_method c (get_elem? t.g_methods (index m)) args t in
    elim (ensure_initialized-Ensured k s h) [
      | stopped f u e ↦ stops f u (ap (λ o. o >>= calling) e)
      | ready t e r i l ↦ call_ready k c m args s t r i l _ (ap (λ o. o >>= calling) e)
    ]

-- A call that returns, of any of the exported functions.
pub data Step (k : Linker) (c : Code) (s : State) : State → Type 0 where
  forwarded :
      (m : MethodIndex) (args : List ℕ) (r : ℕ) (t : State)
      → invoke_method k c m args s ≡ returned (r, t)
      → Step k c s t
  vm_made :
      (p_vm p_env vm_args r : ℕ) (t : State)
      → create_java_vm k c p_vm p_env vm_args s ≡ returned (r, t)
      → Step k c s t
  vms_counted :
      (p_vm vm_max p_vm_count r n : ℕ) (t : State)
      → get_created_java_vms k c p_vm vm_max p_vm_count s ≡ returned (r, n, t)
      → Step k c s t
  blocked : Step k c s (prevent_lazy_loading_for_tests s)

pub data Reachable (k : Linker) (c : Code) : State → Type 0 where
  started : Reachable k c start
  stepped : (s t : State) → Reachable k c s → Step k c s t → Reachable k c t

after :
    {B : Type 0} (k : Linker) (c : Code) (m : MethodIndex) (args : List ℕ) (s : State)
    (o : Outcome (ℕ × State))
    → Forwarded k c m args s o
    → (f : ℕ × State → B) (b : B) → (o >>= λ r. returned (f r)) ≡ returned b
    → (r : ℕ) × (t : State) × IsReady k t × (f (r, t) ≡ b)
after k c m args s o (stops h u e) f b q =
    absurd (aborted≢returned b (sym q ∙ ap (λ x. x >>= λ r. returned (f r)) e))
after k c m args s o (ran t h a e _ _ _) f b q =
    (_, t, h, returned_injective (sym (ap (λ x. x >>= λ r. returned (f r)) e) ∙ q))

lazily-IsReady :
    (k : Linker) (s : State) (b : Bool)
    → IsReady k s
    → IsReady k (record s { g_java_vm_created_lazily = b })
lazily-IsReady k s b h = record {
  handle = h.handle;
  is_initialized = h.is_initialized;
  methods = h.methods;
  complete = h.complete;
  calls = h.calls;
  one_load = h.one_load;
}

vm_created-IsReady :
    (k : Linker) (c : Code) (r : ℕ) (s : State)
    → IsReady k s
    → IsReady k ((vm_created k c (r, s)).1)
unfolding vm_created
vm_created-IsReady k c r s h = choice (r == 0) (lazily-IsReady k s true h) h
  where
    choice : (b : Bool) {x y : State} → IsReady k x → IsReady k y → IsReady k (if b then x else y)
    choice true hx hy = hx
    choice false hx hy = hy

-- A change of the log of dlopen without a load, and of the flag of the tests.
pub quiet-IsWellFormed :
    (k : Linker) (s : State) (opens : List OpenFlags) (b : Bool)
    → loads opens ≡ loads s.opens
    → IsWellFormed k s
    → IsWellFormed k (record s { opens = opens; g_prevent_libnativehelper_loading = b })
quiet-IsWellFormed k s opens b e (inl h) = inl (record {
  not_initialized = h.not_initialized;
  no_methods = h.no_methods;
  no_calls = h.no_calls;
  no_vm = h.no_vm;
  no_loads = e ∙ h.no_loads;
})
quiet-IsWellFormed k s opens b e (inr h) = inr (record {
  handle = h.handle;
  is_initialized = h.is_initialized;
  methods = h.methods;
  complete = h.complete;
  calls = h.calls;
  one_load = e ∙ h.one_load;
})

-- The question whether the library is there keeps a state well formed.
pub load-IsWellFormed :
    (k : Linker) (s : State)
    → IsWellFormed k s
    → IsWellFormed k ((load_libnativehelper k rtld_noload s).1)
unfolding load_libnativehelper
load-IsWellFormed k s h = elim (Bool-cases s.g_prevent_libnativehelper_loading) [
  | inl p ↦ subst (λ (r : Option ℕ × State). IsWellFormed k r.1) (sym (if_true _ _ _ p)) h
  | inr p ↦
      subst (λ (r : Option ℕ × State). IsWellFormed k r.1) (sym (if_false _ _ _ p))
        (quiet-IsWellFormed k s (rtld_noload ∷ s.opens) s.g_prevent_libnativehelper_loading refl h)
]

module _ (k : Linker) (c : Code) (p_vm vm_max p_vm_count : ℕ) where
  count_vms-IsWellFormed :
      (s : State) (x : ℕ × ℕ × State)
      → IsWellFormed k s
      → count_vms k c p_vm vm_max p_vm_count s ≡ returned x
      → IsWellFormed k x.2
  unfolding count_vms counted
  count_vms-IsWellFormed s x h e =
      let a = after k c _ _ s _ (invoke_method-Forwarded k c _ _ s h) _ x e in
      inr (subst (λ (z : ℕ × ℕ × State). IsReady k z.2) a.3 a.2)

  count_loaded-IsWellFormed :
      (r : Option ℕ × State) (x : ℕ × ℕ × State)
      → IsWellFormed k r.1
      → count_loaded k c p_vm vm_max p_vm_count r ≡ returned x
      → IsWellFormed k x.2
  unfolding count_loaded
  count_loaded-IsWellFormed (none, s) x h e =
      subst (λ (z : ℕ × ℕ × State). IsWellFormed k z.2) (returned_injective e) h
  count_loaded-IsWellFormed (some handle, s) x h e = count_vms-IsWellFormed s x h e

  get_created-IsWellFormed :
      (s : State) (x : ℕ × ℕ × State)
      → IsWellFormed k s
      → get_created_java_vms k c p_vm vm_max p_vm_count s ≡ returned x
      → IsWellFormed k x.2
  unfolding get_created_java_vms
  get_created-IsWellFormed s x h e = elim (Bool-cases s.g_java_vm_created_lazily) [
    | inl p ↦ count_vms-IsWellFormed s x h (sym (if_true _ _ _ p) ∙ e)
    | inr p ↦ count_loaded-IsWellFormed _ x (load-IsWellFormed k s h) (sym (if_false _ _ _ p) ∙ e)
  ]

Step-IsWellFormed :
    (k : Linker) (c : Code) (s t : State) → Step k c s t → IsWellFormed k s → IsWellFormed k t
unfolding create_java_vm prevent_lazy_loading_for_tests
Step-IsWellFormed k c s t (forwarded m args r _ e) h =
    let a =
      after k c m args s _ (invoke_method-Forwarded k c m args s h) (λ x. x) (r, t)
        (ap (λ o. o >>= returned) e) in
    inr (subst (λ (z : ℕ × State). IsReady k z.1) a.3 a.2)
Step-IsWellFormed k c s t (vm_made p_vm p_env vm_args r _ e) h =
    let a = after k c _ _ s _ (invoke_method-Forwarded k c _ _ s h) _ (r, t) e in
    inr (subst (λ (z : ℕ × State). IsReady k z.1) a.3 (vm_created-IsReady k c a.0 a.1 a.2))
Step-IsWellFormed k c s t (vms_counted p_vm vm_max p_vm_count r n _ e) h =
    get_created-IsWellFormed k c p_vm vm_max p_vm_count s (r, n, t) h e
Step-IsWellFormed k c s t blocked h = quiet-IsWellFormed k s s.opens true refl h

-- After any sequence of calls that return, either nothing was loaded, bound or called, or the
-- library was loaded exactly once, every slot of the table is the address of its own method in
-- it, and every call made went to such an address.
pub Reachable-IsReady : (k : Linker) (c : Code) (s : State) → Reachable k c s → IsWellFormed k s
Reachable-IsReady k c s started = inl (record {
  not_initialized = refl;
  no_methods = refl;
  no_calls = refl;
  no_vm = refl;
  no_loads = refl;
})
Reachable-IsReady k c t (stepped s _ r h) = Step-IsWellFormed k c s t h (Reachable-IsReady k c s r)
