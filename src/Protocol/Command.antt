-- ===== src/Protocol/Command.antt =====
-- The COMMAND message of internal/protocol/message.go and internal/protocol/codec.go.
pub mod Areas
pub mod Zones
pub mod Sites
pub mod People
pub mod Burrows
pub mod Orders
pub mod Jobs
pub mod Types
pub mod Message
pub mod Serialize
pub mod Deserialize
pub mod RoundTrip
pub mod Carry
pub mod Payload
pub mod Validate
mod Tests
