-- ===== src/SegLog.antt =====
-- The segmented log, server/src/db/seg_log.rs.
pub mod Entry
pub mod State
pub mod Ops
pub mod Layout
pub mod Stored
pub mod Placed
pub mod Append
pub mod Read
pub mod Trim
pub mod Failure
pub mod History
mod Examples
