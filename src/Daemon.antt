-- ===== src/Daemon.antt =====
-- crates/busd/src/main.rs
pub mod Codes
pub mod Events
pub mod Delivery
pub mod Oversize
pub mod Teardown
pub mod Control
pub mod Calls
pub mod Command
pub mod Start
mod Authority
pub mod Identity
mod Examples
mod Exchanges
pub mod Session
pub mod Requests
pub mod Serve
pub mod System
