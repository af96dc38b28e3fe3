-- ===== src/Ports.antt =====
-- runtime/ports: the HAL of the native tests.
pub mod TestHal
pub mod Demo
