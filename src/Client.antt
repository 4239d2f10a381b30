-- ===== src/Client.antt =====
-- The frames a client of the server sends (client/src/client/client.rs, server/src/ha.rs), and what
-- the client reads of the answers.
pub mod Frames
pub mod Sent
pub mod Misrouted
pub mod Replies
pub mod Answered
mod Examples
