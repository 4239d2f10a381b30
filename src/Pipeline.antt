-- ===== src/Pipeline.antt =====
-- Pipelines of commands and the locks that they run under (server/src/db/pipeline.rs).
pub mod Command
pub mod Lock
pub mod Free
pub mod Execute
pub mod Manager
pub mod System
pub mod Safety
pub mod Exclusion
pub mod Blocked
pub mod LostWakeup
pub mod Order
pub mod Serial
mod Examples
