-- ===== src/Realtime.antt =====
-- packages/realtime: numbered events, a bounded backlog, and clients that know what they missed.
pub mod Wire
pub mod Backlog
pub mod Cursor
pub mod Client
mod Tests
