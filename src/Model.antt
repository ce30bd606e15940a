-- ===== src/Model.antt =====
-- model and helper/max: the events of a job, and the settings of a worker.
pub mod Events
pub mod Settings
