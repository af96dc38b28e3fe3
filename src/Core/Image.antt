-- ===== src/Core/Image.antt =====
-- The checks of a program image that `rsm_runtime_validate_image` and the loader call.
pub mod Sections
pub mod Layout
pub mod Operands
pub mod Rungs
pub mod Code
pub mod WellCoded
pub mod Validate
pub mod Load
pub mod SlotTable
pub mod Valid
pub mod Errors
pub mod Ready
pub mod Operation
pub mod Room
