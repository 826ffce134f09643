-- ===== src/Idempotency.antt =====
-- packages/idempotency: a request that is repeated is answered, not done again.
pub mod Record
pub mod Service
pub mod Claim
mod Tests
