-- ===== src/Kv.antt =====
-- The store of keys (server/src/db/kv.rs).
pub mod State
pub mod Database
pub mod Ops
pub mod Views
pub mod Evicts
pub mod LeastUsed
mod Examples
