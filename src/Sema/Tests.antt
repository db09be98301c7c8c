-- ===== src/Sema/Tests.antt =====
-- Runs of the models of src/sema at concrete inputs, and the theorems at inputs that meet their
-- hypotheses.
mod CastsTests
mod EvalTests
mod FileTests
mod IntegersTests
mod SymtableTests
mod TypesTests
