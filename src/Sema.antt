-- ===== src/Sema.antt =====
-- The semantic analysis, src/sema.
pub mod Ast
pub mod Program
pub mod Statements
pub mod BigInt
pub mod Casts
pub mod Diagnostics
pub mod Eval
pub mod File
pub mod Flow
pub mod Integers
pub mod LoopScopes
pub mod Symtable
pub mod Types
mod Tests
