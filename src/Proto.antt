-- ===== src/Proto.antt =====
-- The binary protocol of the server, server/src/server/proto.rs.
pub mod Command
pub mod Cursor
pub mod Parse
pub mod Reads
pub mod SafeReads
pub mod Safe
pub mod Codec
pub mod Responses
mod Examples
