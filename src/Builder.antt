-- ===== src/Builder.antt =====
-- src/builder.cc (RTLILBuilder): folding of constants and the circuits it builds.
pub mod ThreeValued
pub mod Compare
pub mod Gates
pub mod MemoryInit
pub mod Examples
