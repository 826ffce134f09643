-- ===== src/Clock.antt =====
-- packages/clock: spans of time.
pub mod Interval
mod Tests
