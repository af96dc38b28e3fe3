-- ===== src/Link.antt =====
-- protocol/c: the frames of RSM Link and the reassembly of a byte stream.
pub mod Frame
pub mod Ids
pub mod Messages
pub mod Stream
pub mod RoundTrip
pub mod Reassembly
mod Tests
