-- ===== src/Websocket.antt =====
-- The websocket layer of server-rs/src/ws.
pub mod Manager
pub mod Topics
pub mod Envelope
pub mod Drain
pub mod FrameRate
pub mod Delivery
pub mod Publishing
pub mod Mirror
pub mod Sets
pub mod Lifecycle
pub mod Emptied
mod Examples
mod BridgeExamples
