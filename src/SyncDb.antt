-- ===== src/SyncDb.antt =====
-- The sync journal (crates/sync-db): the rows, the tables and their operations.
pub mod Models
pub mod Db
