-- ===== src/Startup.antt =====
-- The start of the server (server/src/main.rs), and what becomes of the events of its changes
-- (server/src/ha.rs).
pub mod Main
pub mod Events
pub mod Unsent
mod Examples
