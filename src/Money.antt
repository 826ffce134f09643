-- ===== src/Money.antt =====
-- packages/money: rounding, and the splitting of an amount.
pub mod Rounding
pub mod Allocate
mod Tests
