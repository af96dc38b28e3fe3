-- ===== src/Conformance.antt =====
-- The conformance fixtures of runtime/generated, run on the model of the core.
pub mod Fixture
pub mod Observe
pub mod Runner
mod Cases
