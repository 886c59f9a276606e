-- ===== src/Protocol/Messages/Tiles/RoundTrip.antt =====
-- Writing and reading FULL_STATE and TILE_UPDATE, of internal/protocol/codec.go.
use df_ai.Base.{All, List, [], arith, length, ok, ℕ, ◌++◌, ◌≡◌}
use df_ai.Protocol.Wire.{Bytes, IsI16, IsU16, IsU32, IsU8, read_many, write_all}
use df_ai.Protocol.Wire.Reads.{lengths, parse_ok, read_many-write_all, reads}
use df_ai.Protocol.Messages.Tiles.{
  FullStateMessage, TileState, TileUpdateMessage, deserialize_full_state, deserialize_tile_update,
  read_full_state, read_tile, read_tile_update, serialize_full_state, serialize_tile_update,
  tile_count, write_tile,
}

abbrev pub FitsTile : TileState → Type 0
FitsTile t = IsI16 t.x × IsI16 t.y × IsI16 t.z × IsU16 t.tile_type × IsU8 t.flags

pub read_tile-write_tile :
    (t : TileState) (rest : Bytes) → FitsTile t → read_tile (write_tile t ++ rest) ≡ ok (t, rest)
unfolding read_tile write_tile
read_tile-write_tile t rest h = simp (reads, h.0, h.1, h.2, h.3, h.4)

-- The tiles of a list, counted by any number that is its length.
pub read_tiles :
    (n : ℕ) (ts : List TileState) (rest : Bytes)
    → length ts ≡ n
    → All FitsTile ts
    → read_many n read_tile (write_all write_tile ts ++ rest) ≡ ok (ts, rest)
read_tiles n ts rest e h =
    rw (← e) (read_many-write_all FitsTile write_tile read_tile read_tile-write_tile ts rest h)

abbrev pub FitsFullState : FullStateMessage → Type 0
FitsFullState m =
    IsU16 m.width
    × IsU16 m.height
    × IsU16 m.depth
    × (length m.tiles ≡ tile_count m)
    × All FitsTile m.tiles

-- A FULL_STATE with values of their Go types and as many tiles as the product of its dimensions is
-- read back, whatever bytes follow, without the soil layers, which are not sent.
pub deserialize_full_state-serialize_full_state :
    (m : FullStateMessage) (rest : Bytes)
    → FitsFullState m
    → deserialize_full_state (serialize_full_state m ++ rest) ≡ ok (record m { is_soil_layer = [] })
unfolding deserialize_full_state serialize_full_state
deserialize_full_state-serialize_full_state m rest h =
    parse_ok 6 read_full_state (serialize_full_state m ++ rest) {rest = rest}
      (simp lengths (omega arith))
      (simp (reads, h.0, h.1, h.2, read_tiles (tile_count m) m.tiles rest h.3 h.4))

abbrev pub FitsTileUpdate : TileUpdateMessage → Type 0
FitsTileUpdate m = IsU32 m.count × (length m.tiles ≡ m.count) × All FitsTile m.tiles

-- A TILE_UPDATE with values of their Go types and as many tiles as its count is read back as it
-- was, whatever bytes follow.
pub deserialize_tile_update-serialize_tile_update :
    (m : TileUpdateMessage) (rest : Bytes)
    → FitsTileUpdate m
    → deserialize_tile_update (serialize_tile_update m ++ rest) ≡ ok m
unfolding deserialize_tile_update serialize_tile_update
deserialize_tile_update-serialize_tile_update m rest h =
    parse_ok 4 read_tile_update (serialize_tile_update m ++ rest) {rest = rest}
      (simp lengths (omega arith)) (simp (reads, h.0, read_tiles m.count m.tiles rest h.1 h.2))
