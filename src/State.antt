-- ===== src/State.antt =====
-- src/slang_frontend.cc (VariableState): the values that variable bits have while a process is
-- executed, and the undoing of a branch.
mod Defs
pub mod Undo
pub mod Branch
pub mod Examples
unfoldable pub use Defs.*
