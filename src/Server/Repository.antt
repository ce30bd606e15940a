-- ===== src/Server/Repository.antt =====
-- server/repository/repository.go: jobs, their events and their status rows, as the SQL statements
-- of the file read and write them. The status table is filled by the insert trigger of
-- server/repository/resources/database/004_21012025.sql.
pub mod Store
pub mod Queries
pub mod Commands
pub mod Invariant
pub mod Recorded
pub mod Loaded
pub mod Statements
pub mod Limits
pub mod Controls
pub mod Memory
