-- ===== src/Tests/Lazy.antt =====
-- libnativehelper_lazy.c at concrete inputs.
use platform_libnativehelper.Lazy.{Linker, State, start}
use platform_libnativehelper.Lazy.Forward.{get_created_java_vms}
use platform_libnativehelper.Lazy.Reach.{Reachable}
use platform_libnativehelper.Base.{
  some_not_none, returned, ℕ, ◌≡◌, refl, ◌⊎◌, Option, none, some, List, [], ◌∷◌, length,
}
use platform_libnativehelper.Lazy.Query.{IsConsistent, get_created_java_vms_total}
use platform_libnativehelper.Lazy.{
  Code, OpenFlags, State, load_libnativehelper, jni_get_nio_buffer_pointer, rtld_noload, rtld_now,
}
use platform_libnativehelper.Lazy.Reach.{
  Reachable, Forwarded, stepped, Reachable-IsReady, started, Step, invoke_method-Forwarded,
  vms_counted,
}
use platform_libnativehelper.Lazy.Once.{IsFresh, IsReady}
use platform_libnativehelper.Lazy.Forward.{get_created_java_vms, count_loaded, invoke_method}

-- A linker with libnativehelper.so, in memory once it was loaded.
abbrev resident : List OpenFlags → Option ℕ
resident [] = none
resident (rtld_now ∷ opens) = some 1
resident (rtld_noload ∷ opens) = resident opens

abbrev opened_by : List OpenFlags → OpenFlags → Option ℕ
opened_by opens rtld_now = some 1
opened_by opens rtld_noload = resident opens

abbrev helper : Linker
helper = record { dlopen = opened_by; dlsym = λ handle name. some (length name) }

abbrev echo : Code
echo = record { result = λ before call. call.address; vm_count = λ before call. 1 }

-- The state after JNI_GetCreatedJavaVMs was called first, which leaves the table empty.
abbrev asked_once : State
asked_once = record start { opens = rtld_noload ∷ [] }

asked_once-Step : Step helper echo start asked_once
unfolding get_created_java_vms load_libnativehelper count_loaded
asked_once-Step = vms_counted 1 1 1 0 0 asked_once refl

asked_once-Reachable : Reachable helper echo asked_once
asked_once-Reachable = stepped start asked_once started asked_once-Step

helper-IsConsistent : IsConsistent helper
helper-IsConsistent = record { again = λ opens handle h. (1, refl, λ m. some_not_none _) }

Reachable-IsReady_example : IsFresh asked_once ⊎ IsReady helper asked_once
Reachable-IsReady_example = Reachable-IsReady helper echo asked_once asked_once-Reachable

invoke_method-Forwarded_example :
    Forwarded helper echo jni_get_nio_buffer_pointer
      (5 ∷ 6 ∷ [])
      asked_once
      (invoke_method helper echo jni_get_nio_buffer_pointer (5 ∷ 6 ∷ []) asked_once)
invoke_method-Forwarded_example =
    invoke_method-Forwarded helper echo jni_get_nio_buffer_pointer (5 ∷ 6 ∷ []) asked_once
      (Reachable-IsReady helper echo asked_once asked_once-Reachable)

get_created_java_vms_total_example :
    (x : ℕ × ℕ × State) × (get_created_java_vms helper echo 1 1 1 asked_once ≡ returned x)
get_created_java_vms_total_example =
    get_created_java_vms_total helper echo 1 1 1 asked_once asked_once-Reachable helper-IsConsistent
