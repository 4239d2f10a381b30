-- ===== src/Api.antt =====
-- The HTTP front end of the client (client/src/api).
pub mod Json
pub mod Http
pub mod Payload
pub mod GroupHandlers
pub mod KvHandlers
pub mod ListHandlers
pub mod Request
pub mod Sends
pub mod Statuses
pub mod Wire
pub mod Served
pub mod Stored
pub mod Unpopped
pub mod Router
mod Examples
