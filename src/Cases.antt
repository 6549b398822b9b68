-- ===== src/Cases.antt =====
-- src/cases.h and src/cases.cc: the tree of the switches and cases of a process, its lowering to
-- RTLIL, and the signals that say which latches are enabled.
mod Tree
pub mod Flatten
pub mod Latch
pub mod Examples
unfoldable pub use Tree.*
