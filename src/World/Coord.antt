-- ===== src/World/Coord.antt =====
-- Coord of internal/worldmodel/types.go, as a key of maps.
use df_ai.Base.{Bool, Key, arith, same_ℤ, same_ℤ_iff, true, ℤ, ◌&&◌, ◌↔◌, ◌≡◌}

pub record Coord : Type 0 where
  pub x : ℤ
  pub y : ℤ
  pub z : ℤ

abbrev pub same_coord : Coord → Coord → Bool
same_coord a b = same_ℤ a.x b.x && same_ℤ a.y b.y && same_ℤ a.z b.z

pub same_coord_iff : (a b : Coord) → (same_coord a b ≡ true) ↔ (a ≡ b)
same_coord_iff a b = ground (arith, same_ℤ_iff a.x b.x, same_ℤ_iff a.y b.y, same_ℤ_iff a.z b.z)

instance abbrev pub coord_key : Key Coord
coord_key = record { same_key = same_coord; same_key_iff = same_coord_iff }
