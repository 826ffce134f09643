-- ===== src/Printing.antt =====
-- packages/printing: jobs for printers, tried again and drained one at a time.
pub mod Job
pub mod Queue
mod Tests
