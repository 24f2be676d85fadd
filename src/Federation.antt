-- ===== src/Federation.antt =====
-- The federation of backends (server-rs/src/federation).
mod TestCrates
mod Examples
mod EventExamples
pub mod Decimal
pub mod Names
pub mod Crates
pub mod Auth
pub mod Kinds
pub mod Ownership
pub mod Interfaces
pub mod Identity
pub mod Payload
pub mod Protocol
pub mod Runtime
pub mod ReplayTable
pub mod Outbox
pub mod Receive
