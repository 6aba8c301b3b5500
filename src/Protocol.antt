-- ===== src/Protocol.antt =====
-- The wire protocol: include/tinykv/protocol and src/protocol.
pub mod Command
pub mod Parser
pub mod Reply
