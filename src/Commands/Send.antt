-- ===== src/Commands/Send.antt =====
-- internal/commands/executor.go: the message that each method Send… builds.
pub mod Areas
pub mod Build
pub mod Zones
pub mod Sites
pub mod Burrows
pub mod People
pub mod Orders
