-- ===== src/Invocation/Exports.antt =====
-- The functions that JniInvocation.c exports for the JNI specification: each goes through the
-- pointer of the instance, and stops the process or answers for itself when that is NULL.
use platform_libnativehelper.Base.{Outcome, aborted, returned, ℕ, none, some}
use platform_libnativehelper.Invocation.{JniInvocationImpl}

-- The code at an address of the provider's library: the status, and the count that it writes.
pub record Provider : Type 0 where
  pub run_get_default_java_vm_init_args : ℕ → ℕ → ℕ
  pub run_create_java_vm : ℕ → ℕ → ℕ → ℕ → ℕ
  pub run_get_created_java_vms : ℕ → ℕ → ℕ → ℕ × ℕ

abbrev pub jni_ok : ℕ
jni_ok = 0

unfoldable pub get_default_java_vm_init_args : Provider → JniInvocationImpl → ℕ → Outcome ℕ
get_default_java_vm_init_args r g vmargs = elim g.jni_get_default_java_vm_init_args [
  | none ↦ aborted
  | some f ↦ returned (r.run_get_default_java_vm_init_args f vmargs)
]

unfoldable pub create_java_vm : Provider → JniInvocationImpl → ℕ → ℕ → ℕ → Outcome ℕ
create_java_vm r g p_vm p_env vm_args = elim g.jni_create_java_vm [
  | none ↦ aborted
  | some f ↦ returned (r.run_create_java_vm f p_vm p_env vm_args)
]

-- The status and the count behind `vm_count`.
unfoldable pub get_created_java_vms : Provider → JniInvocationImpl → ℕ → ℕ → ℕ × ℕ
get_created_java_vms r g vms size = elim g.jni_get_created_java_vms [
  | none ↦ (jni_ok, 0)
  | some f ↦ r.run_get_created_java_vms f vms size
]
