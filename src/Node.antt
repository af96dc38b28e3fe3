-- ===== src/Node.antt =====
-- runtime/node: the command queue of rsm-node.
pub mod Queue
pub mod Options
pub mod Main
mod Tests
