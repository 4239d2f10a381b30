-- ===== src/Groups.antt =====
-- Named logs, each behind a cache (server/src/db/groups.rs).
pub mod State
pub mod Ops
pub mod Backed
pub mod Dropped
pub mod Coherent
pub mod Cached
pub mod Written
pub mod Window
pub mod Ranged
pub mod Runs
mod Examples
