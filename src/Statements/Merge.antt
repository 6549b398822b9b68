-- ===== src/Statements/Merge.antt =====
-- src/statements.h, SwitchHelper::finish: the placeholders of a switch and what they stand for.
mod Defs
pub mod Nets
pub mod Steps
pub mod Wires
pub mod Actions
pub mod Meaning
pub mod Total
pub mod Examples
unfoldable pub use Defs.*
