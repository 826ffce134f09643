-- ===== src/Quantity.antt =====
-- packages/quantity: units, and amounts of them.
pub mod Table
pub mod Convert
mod Tests
