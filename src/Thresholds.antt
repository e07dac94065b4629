-- ===== src/Thresholds.antt =====
-- src/thresholds.rs: the abort thresholds of a run.
pub mod Evaluate
pub mod Verdict
mod Tests
