-- ===== src/Invocation/Wrapper.antt =====
-- include_platform/nativehelper/JniInvocation.h: the C++ class over the functions of JniInvocation.c.
use platform_libnativehelper.Base.{
  some_not_none, crashed, Outcome, returned, ℕ, ◌≡◌, refl, sym, ap, ◌∙◌, ◌≢◌, ◌↔◌, Bool, true,
  false, Option, none, List, ◌∷◌, if◌then◌else◌, false≢true,
}
use platform_libnativehelper.Invocation.{
  create, System, Linker, Process, get_library, zeroed, destroy, init, closed,
}
use platform_libnativehelper.Invocation.Loaded.{init-IsInitialized, IsInitialized}

-- impl_ points to the one instance, or it is NULL.
pub record JniInvocation : Type 0 where
  pub impl : Bool

-- The constructor.
unfoldable pub construct : Process → JniInvocation
construct p = record { impl = create p.g_impl }

-- Filling in an instance that is NULL crashes; before that it is not looked at.
abbrev pub written : Bool → Bool × Process → Outcome (Bool × Process)
written true r = returned r
written false (true, p) = crashed
written false (false, p) = returned (false, p)

-- Init.
unfoldable pub init_invocation :
    Linker → System → Option (List ℕ) → JniInvocation → Process → Outcome (Bool × Process)
init_invocation k y library w p = written w.impl (init k y library p)

-- The destructor: JniInvocationDestroy reads its instance.
abbrev pub destroyed_of : Bool → Process → Outcome Process
destroyed_of true p = returned (destroy p)
destroyed_of false p = crashed

unfoldable pub destruct : JniInvocation → Process → Outcome Process
destruct w p = destroyed_of w.impl p

-- The static GetLibrary.
unfoldable pub get_invocation_library : System → Option (List ℕ) → Bool → List ℕ
get_invocation_library y library buffer = get_library y library buffer

-- What an Init comes to: the end of the object frees the instance and closes its library, and the end
-- of another object that was made meanwhile crashes if the Init succeeded.
pub record IsLife (w : JniInvocation) (r : Bool × Process) : Type 0 where
  pub ended : destruct w r.1 ≡ returned (destroy r.1)
  pub closing : (destroy r.1).calls ≡ closed r.1.g_impl.jni_provider_library ∷ r.1.calls
  pub freed : (construct (destroy r.1)).impl ≡ true
  pub held : (r.1.g_impl.jni_provider_library ≢ none) ↔ (r.0 ≡ true)
  pub second : destruct (construct r.1) r.1 ≡ (if r.0 then crashed else returned (destroy r.1))

destruct-IsLife :
    (y : System) (p : Process) (r : Bool × Process)
    → p.g_impl ≡ zeroed
    → IsInitialized y p r
    → IsLife (construct p) r
unfolding construct create destruct destroy
destruct-IsLife y p (true, q) z h = record {
  ended = rw z;
  closing = refl;
  freed = refl;
  held = (
    (λ w. refl),
    (λ w e. some_not_none h.library (sym (ap (λ g. g.jni_provider_library) h.filled) ∙ e)),
  );
  second = rw h.filled;
}
destruct-IsLife y p (false, q) z h = record {
  ended = rw z;
  closing = refl;
  freed = refl;
  held = (
    (λ w. absurd (w (ap (λ g. g.jni_provider_library) (h.0 ∙ z)))),
    (λ w. absurd (false≢true w)),
  );
  second = rw (h.0 ∙ z);
}

-- A JniInvocation that is made while the instance is free: Init returns what JniInvocationInit does;
-- the end of the object closes the library that is held, if any, and frees the instance; a library
-- is held exactly if Init answered true, and then the end of another JniInvocation, made meanwhile,
-- crashes.
pub init_invocation_lem :
    (k : Linker) (y : System) (library : Option (List ℕ)) (p : Process)
    → p.g_impl ≡ zeroed
    → (r : Bool × Process) × (init_invocation k y library (construct p) p ≡ returned r)
      × (r ≡ init k y library p)
      × IsLife (construct p) r
unfolding init_invocation construct create
init_invocation_lem k y library p z = (
  init k y library p,
  ap (λ g. written (create g) (init k y library p)) z,
  refl,
  destruct-IsLife y p (init k y library p) z (init-IsInitialized k y library p),
)
