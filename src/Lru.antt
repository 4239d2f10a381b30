-- ===== src/Lru.antt =====
-- The cache that forgets what was used least recently (server/src/db/lru.rs).
pub mod State
pub mod Links
pub mod Ops
pub mod Detached
pub mod Attached
pub mod Recent
pub mod Represented
pub mod Used
pub mod Freed
pub mod Allocated
pub mod Added
pub mod Methods
pub mod Inserts
pub mod Refines
pub mod Runs
mod Examples
