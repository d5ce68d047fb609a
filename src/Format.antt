-- ===== src/Format.antt =====
-- The formatter of apps/kinal/src/kn_format.c, from a source to its formatted text.
pub mod Classes
pub mod Buffer
pub mod State
pub mod Gap
pub mod Emit
pub mod Source
pub mod Ink
pub mod Spaces
pub mod Newline
pub mod Room
mod Tests
