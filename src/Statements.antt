-- ===== src/Statements.antt =====
-- src/statements.h: SwitchHelper, which merges the values that the branches of a switch leave, and
-- StatementExecutor, which follows the statements of a process.
pub mod Merge
pub mod Context
pub mod Syntax
pub mod Foreach
pub mod Guards
pub mod Executor
pub mod Kept
pub mod Discipline
pub mod Initial
pub mod Fuel
pub mod Examples
