-- ===== src/Variables.antt =====
-- src/slang_frontend.h (class Variable), src/variables.cc (Variable) and src/variables.h
-- (VariableBit, VariableChunk). A pointer to a slang symbol is a number that identifies it; the
-- width of its type and the order of the AST are arguments.
mod Bits
pub mod Views
pub mod Chunks
pub mod Order
pub mod Sorting
pub mod Examples
unfoldable pub use Bits.*
