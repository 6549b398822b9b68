-- ===== src/Async.antt =====
-- src/async_pattern.cc: which kind of process an `always` block is, and its asynchronous loads.
mod Defs
pub mod Events
pub mod Steps
pub mod Conditions
pub mod Loads
pub mod Examples
unfoldable pub use Defs.*
