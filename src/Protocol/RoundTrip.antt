-- ===== src/Protocol/RoundTrip.antt =====
-- The encoder and the decoder together.
pub mod Tags
pub mod Rules
pub mod Scalars
pub mod Names
pub mod Values
pub mod Collections
pub mod Filters
pub mod Frames
pub mod Packets
