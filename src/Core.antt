-- ===== src/Core.antt =====
-- runtime/core: the portable execution core.
pub mod Words
pub mod Types
pub mod Tags
pub mod Opcode
pub mod Machine
pub mod Execute
pub mod Run
pub mod Nested
pub mod Lifecycle
pub mod Scan
pub mod Frame
pub mod ForceTypes
pub mod Host
pub mod Outcome
pub mod Timing
pub mod Ranges
pub mod Modes
pub mod Slots
pub mod Boundary
pub mod Numbers
pub mod Image
pub mod Snapshot
pub mod Names
mod Tests
