-- ===== src/Billing.antt =====
-- packages/billing: what a plan costs and lets somebody do.
pub mod Plans
mod Tests
