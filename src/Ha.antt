-- ===== src/Ha.antt =====
-- Replication to followers (server/src/ha.rs).
pub mod State
pub mod Ops
pub mod Heartbeats
mod Examples
