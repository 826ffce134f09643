-- ===== src/Calendars.antt =====
-- packages/calendars: the rules of a two-way sync.
pub mod Sync
pub mod Pull
mod Tests
