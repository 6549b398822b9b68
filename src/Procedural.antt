-- ===== src/Procedural.antt =====
-- src/procedural.cc: the execution of a process: assignments, escapes and the limit on unrolling.
mod Defs
pub mod Discipline
pub mod Unrolling
pub mod Values
pub mod Steady
pub mod Examples
unfoldable pub use Defs.*
