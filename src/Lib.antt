-- ===== src/Lib.antt =====
-- libnativehelper: the JNI utilities of Android, and what they promise.
--
-- The parts, and the files that model them (paths from the repository's root):
--
-- (Signature) include_platform_header_only/nativehelper/detail/signature_checker.h, which checks at
--   compile time that the signature string of a native method is that of its C++ function. Checked
--   has ConstexprOptional and the assertions (PARSE_FAILURES_NONFATAL is the Mode), View the
--   ConstexprStringView, Descriptor and Function the parser (ParseSingleTypeDescriptor,
--   ParseSignatureAsList), Traits and Params the table of C++ types and the rules for the function
--   types of native methods, Match the comparison (MatchJniDescriptorWithFunctionType) and Infer
--   the way back (InferJniDescriptor). Macros has the macros of jni_macros.h.
--   A string is the list of its characters, a C++ function type its return type, which may be const
--   or volatile, and the list of its argument types. The child modules state the grammar that the
--   parser reads and the tables on their own and compare the code with them. The grammar is wider
--   than that of the JNI specification in its class names, and the table of accepted types is not
--   everywhere that of the comment of jni_macros.h, which Match/Table has beside it.
-- (Invocation) JniInvocation.c with the calls of DlHelp.c: the single instance, the choice of the
--   library and the fallback to libart.so, the three symbols, and in Exports the functions of the
--   JNI Invocation API that go through them. Wrapper is the C++ class of
--   include_platform/nativehelper/JniInvocation.h.
-- (Lazy) libnativehelper_lazy.c, which loads libnativehelper.so at the first call: the table of
--   method pointers, its binding, and in Forward the exported functions. Its JniInvocation
--   functions forward to those of Invocation, its NIO functions to those of Platform.
-- (Constants) JniConstants.c, the cached classes, methods and fields; the rows of the three
--   X-macro lists are data types with tables, and Initialize expands them as the macros do.
-- (Platform) JNIPlatformHelp.c (NIO buffers) and file_descriptor_jni.c (file descriptors), which
--   read the fields that Constants caches. Wrapper has the functions for file descriptors of
--   include_platform/nativehelper/JNIPlatformHelp.h.
-- (Scoped) the holders of header_only_include/nativehelper: LocalRef models scoped_local_ref.h,
--   UtfChars scoped_utf_chars.h, LocalFrame scoped_local_frame.h, and PrimitiveArray
--   scoped_primitive_array.h, for one of its types. StringChars models scoped_string_chars.h and the
--   jniThrowNullPointerException of nativehelper_utils.h, over the environment of Jni.
-- (Strings) include/nativehelper/toStringArray.h, with its own small state: the local references, the
--   elements of the array, the pending exception and the calls made with one pending.
-- (Text) ExpandableString.c, and the same functions inline in include/nativehelper/JNIHelp.h.
--   Abstract is the string as its clients see it, and Refinement compares the blocks with it.
-- (Jni) the environment that JNIHelp.c calls: the pending exception, the live local references, the
--   characters that are held, and the number of calls that the JNI specification forbids (a call
--   with an exception pending, a reference that was deleted, NULL where none may be, a release of
--   characters that are not held). Rules, Found and Growth say what each call does to them.
-- (Exceptions) JNIHelp.c: the summary and the stack trace of an exception (GetExceptionSummary,
--   GetStackTraceOrSummary), and in Throwing the functions that throw (ThrowException and the
--   jniThrow functions), jniRegisterNativeMethods and jniLogException. Sources says where the texts
--   of a summary come from. The functions are actions on
--   the environment of Jni, and a branch of the C code is a function by clauses. The string they
--   fill is the one of Text.Abstract. JNIHelp.h has the same code inline for C++.
-- (Base) has the shared helpers, Tests the theorems at concrete inputs.
--
-- State is passed explicitly: a record of the static variables of a file, with the calls made to
-- the outside where an answer may depend on them. A call that may stop the process ends with an
-- Outcome: aborted (LOG_ALWAYS_FATAL_IF, ALOG_ALWAYS_FATAL_IF), crashed (a call or an access
-- through NULL) or returned. A pointer is a number, and NULL is `none`. Sequences of calls are the
-- inductive relations named Reachable.
--
-- Bounds and fuel: the constexpr vector of the signature parser holds as many nodes as it is given;
-- the theorems ask for one per character, which is what the code gives it. The loops of the parser
-- run on fuel that is the length of the text: each round takes a character at least. A jint is a
-- 32-bit word and a jlong a 64-bit word, and size_t has 64 bits, with the wrap-around written out.
--
-- Parameters: the dynamic linker, the system properties, strerror_r, the functions of the JNI environment and
-- of the virtual machine, realloc, and the code behind function pointers.
--
-- Not modelled: jni.h (declarations only), the log as far as it does not end the process, the
-- inline copies in JNIHelp.h of functions of JNIHelp.c, the functions of JNIPlatformHelp.h that only
-- pass a NIO buffer on, and concurrency: pthread_once and the atomic flags have their meaning on one
-- thread.
pub mod Base
pub mod Constants
pub mod Exceptions
pub mod Invocation
pub mod Jni
pub mod Lazy
pub mod Platform
pub mod Scoped
pub mod Signature
pub mod Strings
pub mod Text
mod Tests
