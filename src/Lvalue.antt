-- ===== src/Lvalue.antt =====
-- src/lvalue.cc: what is on the left-hand side of an assignment.
mod Defs
pub mod Meaning
pub mod Examples
unfoldable pub use Defs.*
