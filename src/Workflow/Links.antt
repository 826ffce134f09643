-- ===== src/Workflow/Links.antt =====
-- packages/workflow/src/links: signed links.
pub mod Encoding
pub mod Token
mod Tests
