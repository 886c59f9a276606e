-- ===== src/Commands.antt =====
-- internal/commands: the messages that are sent, and the commands in flight.
pub mod Send
pub mod Request
pub mod Types
pub mod Tracker
pub mod Executor
mod Tests
