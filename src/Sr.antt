-- ===== src/Sr.antt =====
-- The safety and retransmission layer: src/c/retransmission and the events that drive it.
pub mod Clock
pub mod Checks
pub mod Send
pub mod Close
pub mod Keeps
pub mod Queues
pub mod Diagnostics
pub mod Receiving
pub mod Handlers
pub mod Handshake
pub mod Receive
pub mod Api
