-- ===== src/World.antt =====
-- internal/worldmodel: what the program believes about the world.
pub mod Coord
pub mod Predicted
mod Tests
