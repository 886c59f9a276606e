-- ===== src/Topology.antt =====
-- internal/topology: which tiles are open.
pub mod Bits
pub mod State
pub mod Overlay
mod Tests
