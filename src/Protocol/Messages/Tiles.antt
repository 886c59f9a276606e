-- ===== src/Protocol/Messages/Tiles.antt =====
-- The messages that carry tiles: FULL_STATE and TILE_UPDATE, of internal/protocol/message.go and
-- internal/protocol/codec.go.
pub mod RoundTrip
use df_ai.Base.{
  Bool, List, Result, [], guard, length, not, validation_failed, ℕ, ℤ, ◌%◌, ◌*◌, ◌++◌, ◌==◌, ◌>>◌,
  ◌^◌, ◌||◌, ◌∷◌,
}
use df_ai.Protocol.Wire.{
  Bytes, Reader, parse, pure, put_i16, put_u16, put_u32, put_u8, read_i16, read_many, read_u16,
  read_u32, read_u8, write_all, written, ◌>>=◌,
}

pub record TileState : Type 0 where
  pub x : ℤ
  pub y : ℤ
  pub z : ℤ
  pub tile_type : ℕ
  pub flags : ℕ

unfoldable pub write_tile : TileState → Bytes
write_tile t =
    written (put_i16 t.x ∷ put_i16 t.y ∷ put_i16 t.z ∷ put_u16 t.tile_type ∷ put_u8 t.flags ∷ [])

unfoldable pub read_tile : Reader TileState
read_tile = do
  x ← read_i16
  y ← read_i16
  z ← read_i16
  tile_type ← read_u16
  flags ← read_u8
  pure (record { x = x; y = y; z = z; tile_type = tile_type; flags = flags })

-- `is_soil_layer` has no place in the payload.
pub record FullStateMessage : Type 0 where
  pub width : ℕ
  pub height : ℕ
  pub depth : ℕ
  pub tiles : List TileState
  pub is_soil_layer : List Bool

abbrev pub tile_count : FullStateMessage → ℕ
tile_count m = m.width * m.height * m.depth

unfoldable pub validate_full_state : FullStateMessage → Result (Unit {0})
validate_full_state m =
    guard (length m.tiles == tile_count m) validation_failed
    >> guard (not (m.width == 0 || m.height == 0 || m.depth == 0)) validation_failed

unfoldable pub serialize_full_state : FullStateMessage → Bytes
serialize_full_state m =
    written
      (put_u16 m.width ∷ put_u16 m.height ∷ put_u16 m.depth ∷ write_all write_tile m.tiles ∷ [])

unfoldable pub read_full_state : Reader FullStateMessage
read_full_state = do
  width ← read_u16
  height ← read_u16
  depth ← read_u16
  tiles ← read_many (width * height * depth) read_tile
  pure (record { width = width; height = height; depth = depth; tiles = tiles; is_soil_layer = [] })

unfoldable pub deserialize_full_state : Bytes → Result FullStateMessage
unfolding read_full_state
deserialize_full_state = parse 6 read_full_state

pub record TileUpdateMessage : Type 0 where
  pub count : ℕ
  pub tiles : List TileState

-- `uint32(len(m.Tiles)) != m.Count`
unfoldable pub validate_tile_update : TileUpdateMessage → Result (Unit {0})
validate_tile_update m =
    guard (length m.tiles % 2 ^ 32 == m.count) validation_failed
    >> guard (not (m.count == 0)) validation_failed

unfoldable pub serialize_tile_update : TileUpdateMessage → Bytes
serialize_tile_update m = put_u32 m.count ++ write_all write_tile m.tiles

unfoldable pub read_tile_update : Reader TileUpdateMessage
read_tile_update = do
  count ← read_u32
  tiles ← read_many count read_tile
  pure (record { count = count; tiles = tiles })

unfoldable pub deserialize_tile_update : Bytes → Result TileUpdateMessage
unfolding read_tile_update
deserialize_tile_update = parse 4 read_tile_update
