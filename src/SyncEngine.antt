-- ===== src/SyncEngine.antt =====
-- The sync engine (crates/sync-engine).
pub mod Types
pub mod State
pub mod Reconcile
pub mod Host
pub mod Discovery
pub mod Urls
pub mod Propagate
pub mod Engine
