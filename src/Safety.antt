-- ===== src/Safety.antt =====
-- src/safety.rs: what a configuration must satisfy before anything is dialled.
pub mod Errors
pub mod Messages
pub mod Participants
pub mod Workload
pub mod Policy
mod Tests
pub mod Production
pub mod Accepted
pub mod Rules
pub mod Identity
pub mod Options
