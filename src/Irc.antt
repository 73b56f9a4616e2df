-- ===== src/Irc.antt =====
-- irc/: the IRC server.
pub mod Users
pub mod Message
pub mod Client
pub mod Reply
pub mod Server
pub mod Channels
mod Tests
