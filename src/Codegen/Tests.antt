-- ===== src/Codegen/Tests.antt =====
-- Concrete runs of src/codegen/.
mod LayoutTests
mod LivenessTests
mod PropagationTests
mod RegallocTests
mod SpillerTests
mod UsersTests
