-- ===== src/Conformance/Cases.antt =====
-- One module for each fixture without REAL values and of fewer than 5000 bytes.
mod BranchParallel
mod Clr
mod Ctd
mod CtdRollover
mod Ctu
mod CtuRollover
mod DivIntmin
mod Ons
mod Ote
mod Otl
mod Otu
mod Res
mod TonClockWrap
mod Ton
mod UnloadReload
