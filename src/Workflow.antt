-- ===== src/Workflow.antt =====
-- packages/workflow: lifecycles, the signed links by which somebody without an account enters one, and
-- the working days that its deadlines are counted in.
pub mod Machine
pub mod Links
pub mod WorkingDays
mod Tests
