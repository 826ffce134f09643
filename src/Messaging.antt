-- ===== src/Messaging.antt =====
-- packages/messaging: what a text message costs, says, and when and whether it is sent.
pub mod Segments
pub mod Gsm
pub mod Pumping
pub mod Quiet
mod Tests
