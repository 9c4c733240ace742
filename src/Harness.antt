-- ===== src/Harness.antt =====
-- The harness on a person's machine (harness).
pub mod Job
