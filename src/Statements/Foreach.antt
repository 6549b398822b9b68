-- ===== src/Statements/Foreach.antt =====
-- src/statements.h, ForeachLoopStatement: the indices of the rounds.
mod Defs
pub mod Order
pub mod Rounds
unfoldable pub use Defs.*
