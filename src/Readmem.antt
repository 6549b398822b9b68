-- ===== src/Readmem.antt =====
-- src/slang_frontend.cc, $readmemh and $readmemb: the words of a memory file and its comments. A
-- character is its code.
mod Defs
pub mod Words
pub mod Comments
pub mod Flush
pub mod Load
pub mod Aligned
pub mod Examples
unfoldable pub use Defs.*
