-- ===== src/Core/Timing.antt =====
-- The timer and the counters over many scans.
pub mod Timers
pub mod Counters
