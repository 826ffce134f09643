-- ===== src/Vouchers.antt =====
-- packages/vouchers: stored value, and the codes that it is printed under.
pub mod Ledger
pub mod Codes
mod Tests
