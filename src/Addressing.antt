-- ===== src/Addressing.antt =====
-- src/addressing.cc (AddressingResolver): element and range selects.
mod Select
pub mod Static
mod Lanes
pub mod Shift
pub mod Examples
unfoldable pub use Select.*
