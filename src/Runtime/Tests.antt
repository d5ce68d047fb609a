-- ===== src/Runtime/Tests.antt =====
-- Tests of the runtime library, and its theorems at concrete inputs.
mod Tables
mod Lists
mod Texts
mod Trims
mod Paths
mod Heaps
