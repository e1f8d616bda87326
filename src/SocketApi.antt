-- ===== src/SocketApi.antt =====
-- crates/socket-api: the line protocol of the file managers' plug-ins, and the status of a path.
pub mod Protocol
pub mod StatusResolver
pub mod Server
