-- ===== src/Pool.antt =====
-- The pool of connections of the client (client/src/client/pool.rs).
pub mod State
pub mod Ops
pub mod System
pub mod Acquired
pub mod Owned
pub mod Outage
mod Examples
