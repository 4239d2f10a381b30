-- ===== src/Db.antt =====
-- The database over the three stores (server/src/db/db.rs).
pub mod State
pub mod Calls
pub mod Ops
pub mod Apply
pub mod Logged
pub mod Replay
pub mod Turns
pub mod Sequence
pub mod Scheduled
pub mod Recovered
pub mod Restart
pub mod Client
pub mod Kept
pub mod Finished
pub mod Lists
pub mod Synced
mod Examples
