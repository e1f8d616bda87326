-- ===== src/SyncEngine/Propagate.antt =====
-- Phase 3 of the sync, one path at a time (crates/sync-engine/src/propagate).
pub mod Ops
pub mod Download
pub mod Upload
