-- ===== src/Server.antt =====
-- What the server answers (server/src/server/server.rs).
pub mod Messages
pub mod Handle
pub mod Stored
pub mod Replicated
pub mod Queued
mod Examples
