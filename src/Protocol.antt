-- ===== src/Protocol.antt =====
-- crates/bus-protocol/src/lib.rs
pub mod Types
pub mod Bytes
pub mod Names
pub mod Display
pub mod Messages
pub mod Limits
pub mod Tags
pub mod Options
pub mod Writer
pub mod Reader
pub mod Encode
pub mod Decode
pub mod RoundTrip
pub mod Accepts
pub mod ErrorFrames
pub mod Examples
