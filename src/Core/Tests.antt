-- ===== src/Core/Tests.antt =====
-- Tests of the runtime core, and its theorems at concrete inputs.
mod Program
mod Tags
mod Timing
mod Run
mod Image
mod Numbers
mod Scan
mod Load
mod Snapshot
mod Nested
