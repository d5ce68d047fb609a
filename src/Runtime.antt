-- ===== src/Runtime.antt =====
-- The runtime library (libs/runtime/src/kn_runtime.c): its strings, dictionaries, sets and lists. A
-- `const char *` that may be null is an `Option Bytes`, as in CString. An allocation is a test of
-- the number of bytes asked for: whether `__kn_gc_alloc` gives them.
pub mod Strings
mod Mask
pub mod KnList
pub mod Dict
pub mod Text
pub mod Collector
pub mod PathList
pub mod Table
mod Tests
