-- ===== src/Permissions.antt =====
-- The permission cache of server-rs/src/services/permissions.rs.
pub mod Bits
pub mod Search
pub mod Types
pub mod Compute
pub mod Storage
pub mod Loading
pub mod Invalidation
pub mod Invariant
mod Examples
mod OperationExamples
pub mod Members
pub mod Viewers
