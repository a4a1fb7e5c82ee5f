-- ===== src/Tests.antt =====
-- The theorems at concrete inputs, and runs of the code.
mod Signature
mod Invocation
mod Lazy
mod Platform
mod Exceptions
mod Frames
mod Text
mod Scoped
mod Strings
