-- ===== src/Tests/Invocation.antt =====
-- JniInvocation.c at concrete inputs.
use platform_libnativehelper.Base.{
  some_not_none, same_string, ◌≡◌, refl, ◌↔◌, ◌⊎◌, inr, true, false, none, some, [], if◌then◌else◌,
  codes, length, Bool, returned,
}
use platform_libnativehelper.Invocation.{
  get_library, init, System, Linker, Process, destroy, k_default_jni_invocation_library,
  get_library_with, zeroed, is_debuggable,
}
use platform_libnativehelper.Invocation.Wrapper
use platform_libnativehelper.Invocation.Choice.{
  IsIdle, IsComplete, IsOpenable, IsServing, exports_agree, init_iff,
}
use platform_libnativehelper.Invocation.Loaded.{
  IsWellFormed, Reachable-IsWellFormed, destroyed, initialized, loaded,
}
use platform_libnativehelper.Invocation.Exports.{Provider, jni_ok}
use platform_libnativehelper.Invocation.Wrapper.{init_invocation, IsLife, init_invocation_lem}

-- A linker that opens no library but libart.so, and finds every symbol in it.
abbrev art_only : Linker
art_only = record {
  dl_open_library =
      λ calls name. if same_string name k_default_jni_invocation_library then some 7 else none;
  dl_get_symbol = λ calls library symbol. some (length symbol);
}

abbrev host : System
host = record { is_android = false; ro_debuggable = []; persist_sys_dalvik_vm_lib_2 = [] }

abbrev runtime : Provider
runtime = record {
  run_get_default_java_vm_init_args = λ f v. f;
  run_create_java_vm = λ f a b c. f;
  run_get_created_java_vms = λ f a b. (jni_ok, 1);
}

abbrev start : Process
start = record { g_impl = zeroed; calls = [] }

art_only-IsComplete : IsComplete art_only
art_only-IsComplete calls library = (some_not_none _, some_not_none _, some_not_none _)

init_iff_example :
    ((init art_only host (some (codes "libother.so")) start).0 ≡ true)
    ↔ IsOpenable art_only
        (get_library host (some (codes "libother.so")) host.is_android)
        start.calls
init_iff_example = init_iff art_only host (some (codes "libother.so")) start art_only-IsComplete

-- The fallback is taken.
falls_back : (init art_only host (some (codes "libother.so")) start).0 ≡ true
unfolding get_library get_library_with is_debuggable
falls_back = init_iff_example.1 (inr (refl, some_not_none 7))

Reachable-IsWellFormed_example : IsWellFormed host (destroy ((init art_only host none start).1))
Reachable-IsWellFormed_example =
    Reachable-IsWellFormed art_only host (destroy ((init art_only host none start).1))
      (destroyed _ (initialized none start loaded))

exports_agree_example :
    IsIdle runtime ((init art_only host none start).1)
    ⊎ IsServing runtime host ((init art_only host none start).1)
exports_agree_example =
    exports_agree art_only host runtime ((init art_only host none start).1)
      (initialized none start loaded)

init_invocation_lem_example :
    (r : Bool × Process) × (init_invocation art_only host none (Wrapper.construct start) start
      ≡ returned r)
    × (r ≡ init art_only host none start)
    × IsLife (Wrapper.construct start) r
init_invocation_lem_example = init_invocation_lem art_only host none start refl
