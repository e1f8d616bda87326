-- ===== src/SyncEngine/Engine.antt =====
-- crates/sync-engine/src/engine.rs: `SyncEngine` and `run_sync`, phase by phase, and what they promise.
pub mod Context
pub mod Plan
pub mod Dirs
pub mod Files
pub mod Run
pub mod Effects
pub mod Status
pub mod Ending
pub mod Counts
pub mod Converge
pub mod Frame
pub mod Locality
mod Tests
