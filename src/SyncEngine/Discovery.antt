-- ===== src/SyncEngine/Discovery.antt =====
-- crates/sync-engine/src/discovery: what the server and the local folder hold.
pub mod Propfind
pub mod Remote
pub mod Local
