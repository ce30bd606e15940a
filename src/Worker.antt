-- ===== src/Worker.antt =====
-- worker and helper/command: what a worker accepts, encodes and suspends.
pub mod Pause
pub mod Admission
pub mod Slots
pub mod Schedule
pub mod Encoders
pub mod EncodePool
pub mod Remote
pub mod Requests
