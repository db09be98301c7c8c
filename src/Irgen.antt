-- ===== src/Irgen.antt =====
-- The generation of LLVM IR, src/irgen.
pub mod Builder
pub mod Statements
pub mod Steps
