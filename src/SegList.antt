-- ===== src/SegList.antt =====
-- The segmented list, server/src/db/seg_list.rs.
pub mod State
pub mod Ops
pub mod Owned
pub mod Payload
pub mod View
pub mod Carried
pub mod Pops
pub mod Counts
pub mod Grows
pub mod Pushes
pub mod Batches
mod Examples
