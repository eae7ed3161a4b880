-- ===== src/Protocol.antt =====
-- protocol.py
pub mod Bytes
pub mod Types
pub mod Values
pub mod Packer
pub mod Unpacker
pub mod RoundTrip
pub mod Loop
