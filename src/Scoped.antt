-- ===== src/Scoped.antt =====
-- header_only_include/nativehelper: the C++ holders that give a resource of JNI back when they end.
pub mod LocalFrame
pub mod LocalRef
pub mod PrimitiveArray
pub mod StringChars
pub mod UtfChars
