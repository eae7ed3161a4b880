-- ===== src/Protocol/RoundTrip.antt =====
-- What `MessagePacker` writes, `MessageUnpacker` reads.
pub mod Parts
pub mod Data
pub mod Message
pub mod Accepted
