-- ===== src/Signature.antt =====
-- include_platform_header_only/nativehelper/detail/signature_checker.h: the compile-time check of
-- JNI signatures against C++ function types.
pub mod Checked
pub mod View
pub mod Descriptor
pub mod Function
pub mod Traits
pub mod Params
pub mod Macros
pub mod Match
pub mod Infer
