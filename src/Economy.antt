-- ===== src/Economy.antt =====
-- The premium-currency ledger of packages/game-economy.
pub mod Kinds
pub mod Allocate
pub mod Check
pub mod Tables
pub mod Store
pub mod Requests
pub mod Service
pub mod Reverse
pub mod Queries
mod Tests
