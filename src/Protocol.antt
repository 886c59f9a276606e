-- ===== src/Protocol.antt =====
-- internal/protocol: the wire format, the messages, their frame and the connection.
pub mod Wire
pub mod Command
pub mod Messages
pub mod Frame
pub mod Connection
mod Tests
