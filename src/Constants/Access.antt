-- ===== src/Constants/Access.antt =====
-- JniConstants.c: what an accessor returns, whatever was called before it.
use platform_libnativehelper.Base.{
  >>=-returned, if_true, if_false, returned_injective, returned, ◌>>=◌, ℕ, ◌≡◌, refl, sym, ap, ◌∙◌,
  subst, ◌≢◌, ◌⊎◌, inl, inr, Option, none, List, false≢true, codes,
}
use platform_libnativehelper.Constants.Initialize.{
  method_of, ensure_initialized, class_of, field_of, uninitialize_constants, initialize_constants,
}
use platform_libnativehelper.Constants.{
  find_class, Vm, MethodConstant, class_row, Cache, method_row, empty, method_id,
  nio_access_get_base_array, nio_access,
}
use platform_libnativehelper.Constants.Resolved.{
  Reachable, initialize_constants-IsResolved, Step, IsResolved, stepped, class_read, method_read,
  field_read, started, uninitialized,
}

-- Nothing is cached, or everything is, from one environment.
abbrev pub IsWellFormed : Vm → Cache → Type 0
IsWellFormed vm s = (s ≡ empty) ⊎ ((env : ℕ) × IsResolved vm env s)

-- The cache that a call with this environment leaves: that of the environment of the first call
-- since the start or since jniUninitializeConstants.
pub IsServed : Vm → ℕ → Cache → Cache → Type 0
IsServed vm env s t =
    ((s ≡ empty) × IsResolved vm env t) ⊎ ((s ≡ t) × ((e : ℕ) × IsResolved vm e t))

ensure_initialized-IsServed :
    (vm : Vm) (env : ℕ) (s t : Cache)
    → IsWellFormed vm s
    → ensure_initialized vm env s ≡ returned t
    → IsServed vm env s t
unfolding ensure_initialized IsServed
ensure_initialized-IsServed vm env s t (inl e) h = inl (
  e,
  initialize_constants-IsResolved vm env t (
      sym (
        if_false s.initialized (returned s) (initialize_constants vm env)
          (ap (λ z. z.initialized) e))
      ∙ h),
)
ensure_initialized-IsServed vm env s t (inr (e, r)) h =
    let q = returned_injective (sym (if_true _ _ _ r.is_initialized) ∙ h) in
    inr (q, (e, subst (IsResolved vm e) q r))

pub read_lem :
    {B : Type 0} (vm : Vm) (env : ℕ) (s t : Cache) (f : Cache → B) (x : B)
    → IsWellFormed vm s
    → ◌>>=◌ {B = B × Cache} (ensure_initialized vm env s) (λ z. returned (f z, z)) ≡ returned (x, t)
    → (x ≡ f t) × IsServed vm env s t
read_lem {B} vm env s t f x w h =
    let a = >>=-returned (ensure_initialized vm env s) (λ z. returned (f z, z)) (x, t) h in
    let q = returned_injective a.2 in
    (
      sym (ap (λ (z : B × Cache). z.0) q) ∙ ap f (ap (λ (z : B × Cache). z.1) q),
      subst (IsServed vm env s) (ap (λ (z : B × Cache). z.1) q)
          (ensure_initialized-IsServed vm env s a.0 w a.1),
    )

IsServed-IsWellFormed : (vm : Vm) (env : ℕ) (s t : Cache) → IsServed vm env s t → IsWellFormed vm t
unfolding IsServed
IsServed-IsWellFormed vm env s t (inl h) = inr (env, h.1)
IsServed-IsWellFormed vm env s t (inr h) = inr h.1

Step-IsWellFormed : (vm : Vm) (s t : Cache) → Step vm s t → IsWellFormed vm s → IsWellFormed vm t
unfolding class_of method_of field_of uninitialize_constants
Step-IsWellFormed vm s t (class_read env c x _ h) w =
    IsServed-IsWellFormed vm env s t ((read_lem vm env s t (λ z. z.classes c) x w h).1)
Step-IsWellFormed vm s t (method_read env m x _ h) w =
    IsServed-IsWellFormed vm env s t ((read_lem vm env s t (λ z. z.methods m) x w h).1)
Step-IsWellFormed vm s t (field_read env f x _ h) w =
    IsServed-IsWellFormed vm env s t ((read_lem vm env s t (λ z. z.fields f) x w h).1)
Step-IsWellFormed vm s t uninitialized w = inl refl

-- After any sequence of calls that return, either nothing is cached, or the whole cache is of one
-- environment: every class was found there, or is the one that only Android has, and every method
-- and field is the identifier for its row in the cached class of that row, and is not NULL.
pub Reachable-IsResolved :
    (vm : Vm) (s : Cache) → Reachable vm s → (s ≡ empty) ⊎ ((env : ℕ) × IsResolved vm env s)
Reachable-IsResolved vm s started = inl refl
Reachable-IsResolved vm t (stepped s _ r h) =
    Step-IsWellFormed vm s t h (Reachable-IsResolved vm s r)

-- What an accessor of a method returns, after any sequence of calls, is not NULL, and is the
-- identifier for its row in the cached class, all from one environment: that of this call, if
-- nothing was called since the start or since jniUninitializeConstants.
pub method_of_lem :
    (vm : Vm) (env : ℕ) (m : MethodConstant) (s t : Cache) (x : Option ℕ)
    → Reachable vm s
    → method_of vm env m s ≡ returned (x, t)
    → (x ≢ none)
      × (e : ℕ) × (x ≡ method_id vm e (t.classes (method_row m).class) (method_row m))
      × IsResolved vm e t
      × (s ≡ empty → IsResolved vm env t)
unfolding method_of IsServed
method_of_lem vm env m s t x r h =
    let a = read_lem vm env s t (λ z. z.methods m) x (Reachable-IsResolved vm s r) h in
    elim a.1 [
      | inl b ↦ (λ n. (b.1.methods m).1 (sym a.0 ∙ n), env, a.0 ∙ (b.1.methods m).0, b.1, λ _. b.1)
      | inr b ↦ (
        λ n. (b.1.1.methods m).1 (sym a.0 ∙ n),
        b.1.0,
        a.0 ∙ (b.1.1.methods m).0,
        b.1.1,
        λ q.
            absurd
              (false≢true (sym (ap (λ z. z.initialized) (sym b.0 ∙ q)) ∙ b.1.1.is_initialized)),
      )
    ]

-- On a virtual machine without java/nio/NIOAccess, the class that only Android has, and that finds
-- no static method in a NULL class, InitializeConstants does not return.
pub nio_access_required :
    (vm : Vm) (env : ℕ)
    → vm.find_class env (codes "java/nio/NIOAccess") ≡ none
    → ((name signature : List ℕ) → vm.get_static_method_id env none name signature ≡ none)
    → (s : Cache) → initialize_constants vm env ≢ returned s
unfolding find_class class_row method_row method_id
nio_access_required vm env h n s e =
    let r = initialize_constants-IsResolved vm env s e in
    let m = r.methods nio_access_get_base_array in
    let c : find_class vm env nio_access ≡ returned none = rw (find_class, h) in
    let q = returned_injective (sym (r.classes nio_access) ∙ c) in
    m.1 (
      m.0
      ∙ ap
          (λ z.
            vm.get_static_method_id env z (codes "getBaseArray")
              (codes "(Ljava/nio/Buffer;)Ljava/lang/Object;"))
          q
      ∙ n _ _)
