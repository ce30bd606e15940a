-- ===== src/Update.antt =====
-- update/managed: updates of the installation on Windows.
pub mod Manifest
pub mod Manager
pub mod Fetch
pub mod Step
pub mod Guarded
pub mod Calls
pub mod Blocks
pub mod Barrier
