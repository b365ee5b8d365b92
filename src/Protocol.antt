-- ===== src/Protocol.antt =====
-- server/protocol: command lines.
pub mod Commands
pub mod Parser
pub mod Lines
mod Tests
