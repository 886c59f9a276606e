-- ===== src/Protocol/Messages.antt =====
-- The messages other than commands, of internal/protocol/message.go and internal/protocol/codec.go.
pub mod Session
pub mod Tiles
pub mod Queries
pub mod Announcements
pub mod Entities
mod Tests
