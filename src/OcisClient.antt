-- ===== src/OcisClient.antt =====
-- crates/ocis-client: the client of the server.
pub mod Tokens
pub mod WebFinger
