-- ===== src/Server.antt =====
-- server: the repository of jobs, the files, and the scheduler over both.
pub mod Repository
pub mod Files
pub mod Scheduler
pub mod Library
