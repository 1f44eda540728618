-- ===== src/Client.antt =====
-- crates/bus-client/src/lib.rs
pub mod Dedup
pub mod Cache
pub mod Window
pub mod Transport
pub mod Bus
pub mod Request
pub mod Await
pub mod Misread
pub mod Reconnect
pub mod Restore
pub mod Log
pub mod Controls
pub mod Greeting
pub mod Replay
mod Examples
mod Sessions
