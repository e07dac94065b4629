-- ===== src/Report.antt =====
-- src/report.rs: the report of a run.
pub mod Types
pub mod RunReport
pub mod Names
