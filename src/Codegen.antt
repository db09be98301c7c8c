-- ===== src/Codegen.antt =====
-- src/codegen: the back end.
pub mod Instruction
pub mod Layout
pub mod Liveness
pub mod Regalloc
pub mod Spiller
mod Tests
