-- ===== src/Server/Scheduler.antt =====
-- server/scheduler/scheduler.go: the scheduler, over the statements of the repository.
pub mod Dispatch
pub mod Naming
pub mod Publishing
pub mod Completion
pub mod Reports
pub mod Intake
pub mod Failures
pub mod Maintenance
pub mod Controls
pub mod Search
pub mod Media
