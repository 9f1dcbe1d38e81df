-- ===== src/Http.antt =====
-- libhttp: the byte buffer of a connection, the parser that consumes it, and the response sender.
pub mod Search
pub mod Text
pub mod Url
pub mod MsgBuffer
pub mod Packet
pub mod Request
pub mod Message
pub mod Parser
pub mod Context
pub mod Server
