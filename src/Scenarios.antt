-- ===== src/Scenarios.antt =====
-- src/scenarios.rs: the fixed-position workload.
pub mod Outcome
pub mod Errors
pub mod Timing
pub mod Ledger
pub mod Routing
pub mod Writing
pub mod Batch
pub mod Stages
pub mod Sender
mod Tests
pub mod Readiness
pub mod Participant
pub mod Reader
pub mod Start
pub mod Work
pub mod Connected
pub mod Position
pub mod Wire
pub mod Stop
pub mod Workload
pub mod Samples
