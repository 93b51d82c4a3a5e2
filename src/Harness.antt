-- ===== src/Harness.antt =====
-- The harness, harness/harness.c.
pub mod Execute
pub mod Console
pub mod Privilege
pub mod Tests
