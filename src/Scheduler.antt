-- ===== src/Scheduler.antt =====
-- src/scheduler.rs: when each client of a run starts.
pub mod Delays
pub mod Steps
pub mod Counts
mod Tests
