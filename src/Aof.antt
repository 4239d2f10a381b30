-- ===== src/Aof.antt =====
-- The append-only file (server/src/db/aof.rs).
pub mod Entry
pub mod Base64
pub mod Load
pub mod Decoded
pub mod Loaded
mod Examples
