-- ===== src/Broker.antt =====
-- crates/bus-broker/src/lib.rs
pub mod Types
pub mod Exec
pub mod Invariant
pub mod Checks
pub mod Reliability
pub mod Session
pub mod Registry
pub mod Routing
pub mod Labels
pub mod Delivery
pub mod Responses
pub mod Acknowledge
pub mod Tick
pub mod Disconnect
pub mod Views
pub mod Messages
pub mod Steps
pub mod Release
pub mod Backoff
pub mod Ownership
pub mod Deadlines
pub mod Recipients
pub mod Answers
pub mod Confirmations
pub mod Quotas
pub mod Refusals
pub mod Admission
pub mod Dispatch
pub mod Scenario
mod Examples
