-- ===== src/Server/Files.antt =====
-- The part of path/filepath and os that server/scheduler works with: paths on a Unix system, and
-- the files that they name.
pub mod Paths
pub mod Names
pub mod Disk
