-- ===== src/Protocol/Messages/Entities.antt =====
-- ENTITY_UPDATE, of internal/protocol/message.go and internal/protocol/codec.go: the units, then the
-- optional blocks FortInfo, Zones, DeadUnits and WorldIdentity, which a reader takes for absent where
-- the payload ends before them.
pub mod Blocks
pub mod RoundTrip
use df_ai.Base.{
  Bool, List, Option, Result, [], err, false, guard, if◌then◌else◌, length, map, none, ok, some,
  take, true, validation_failed, ℕ, ℤ, ◌%◌, ◌++◌, ◌==◌, ◌^◌, ◌||◌, ◌∷◌,
}
use df_ai.Protocol.Wire.{
  Bytes, Reader, parse, pure, put_i16, put_i32, put_text, put_u16, put_u32, put_u64, put_u8,
  read_i16, read_i32, read_many, read_text, read_u16, read_u32, read_u64, read_u8, write_all,
  written, ◌>>=◌,
}

pub record EntityInfo : Type 0 where
  pub id : ℕ
  pub x : ℤ
  pub y : ℤ
  pub z : ℤ
  pub kind : ℕ
  pub subtype : ℕ
  pub dead : Bool

pub record FortInfo : Type 0 where
  pub days_elapsed : ℕ
  pub created_wealth : ℕ
  pub season : ℕ
  pub year : ℕ

pub record WorldIdentity : Type 0 where
  pub save_dir : Bytes
  pub id1 : ℕ
  pub id2 : ℕ

pub record ZoneData : Type 0 where
  pub zone_id : ℕ
  pub zone_type : ℕ
  pub x1 : ℤ
  pub y1 : ℤ
  pub z1 : ℤ
  pub x2 : ℤ
  pub y2 : ℤ
  pub z2 : ℤ
  pub owner_unit_id : ℤ
  pub assigned_units : List ℤ

pub record EntityUpdateMessage : Type 0 where
  pub count : ℕ
  pub entities : List EntityInfo
  pub fort_info : Option FortInfo
  pub zones : List ZoneData
  pub world : Option WorldIdentity

-- `uint32(len(m.Entities)) != m.Count`
unfoldable pub validate_entity_update : EntityUpdateMessage → Result (Unit {0})
validate_entity_update m = guard (length m.entities % 2 ^ 32 == m.count) validation_failed

-- The `kind` is the field Type; `dead` is not written here.
unfoldable pub write_entity : EntityInfo → Bytes
write_entity e = written (
    put_u32 e.id ∷ put_i16 e.x ∷ put_i16 e.y ∷ put_i16 e.z ∷ put_u8 e.kind ∷ put_u16 e.subtype ∷ [])

unfoldable pub read_entity : Reader EntityInfo
read_entity = do
  id ← read_u32
  x ← read_i16
  y ← read_i16
  z ← read_i16
  kind ← read_u8
  subtype ← read_u16
  pure (record { id = id; x = x; y = y; z = z; kind = kind; subtype = subtype; dead = false })

unfoldable pub write_fort_info : FortInfo → Bytes
write_fort_info f =
    written
      (put_u32 f.days_elapsed ∷ put_u64 f.created_wealth ∷ put_u8 f.season ∷ put_u32 f.year ∷ [])

unfoldable pub read_fort_info : Reader FortInfo
read_fort_info = do
  days_elapsed ← read_u32
  created_wealth ← read_u64
  season ← read_u8
  year ← read_u32
  pure (record {
    days_elapsed = days_elapsed;
    created_wealth = created_wealth;
    season = season;
    year = year;
  })

-- One level is written for both corners.
unfoldable pub write_zone_data : ZoneData → Bytes
write_zone_data z = written (
    put_u32 z.zone_id
    ∷ put_u8 z.zone_type
    ∷ put_i16 z.x1
    ∷ put_i16 z.y1
    ∷ put_i16 z.x2
    ∷ put_i16 z.y2
    ∷ put_i16 z.z1
    ∷ put_i32 z.owner_unit_id
    ∷ put_u16 (length z.assigned_units)
    ∷ write_all put_i32 z.assigned_units
    ∷ [])

unfoldable pub read_zone_data : Reader ZoneData
read_zone_data = do
  zone_id ← read_u32
  zone_type ← read_u8
  x1 ← read_i16
  y1 ← read_i16
  x2 ← read_i16
  y2 ← read_i16
  level ← read_i16
  owner_unit_id ← read_i32
  assigned_count ← read_u16
  assigned_units ← read_many assigned_count read_i32
  pure (record {
    zone_id = zone_id;
    zone_type = zone_type;
    x1 = x1;
    y1 = y1;
    z1 = level;
    x2 = x2;
    y2 = y2;
    z2 = level;
    owner_unit_id = owner_unit_id;
    assigned_units = assigned_units;
  })

unfoldable pub write_zones : List ZoneData → Bytes
write_zones zs = put_u32 (length zs) ++ write_all write_zone_data zs

unfoldable pub read_zones : Reader (List ZoneData)
read_zones = do n ← read_u32; read_many n read_zone_data

-- The ids of the dead, in the order of the units.
unfoldable pub dead_ids : List EntityInfo → List ℕ
dead_ids [] = []
dead_ids (e ∷ es) = if e.dead then e.id ∷ dead_ids es else dead_ids es

unfoldable pub write_dead : List ℕ → Bytes
write_dead ids = put_u32 (length ids) ++ write_all put_u32 ids

unfoldable pub read_dead : Reader (List ℕ)
read_dead = do n ← read_u32; read_many n read_u32

-- `_, dead := deadSet[id]`
abbrev pub is_in : ℕ → List ℕ → Bool
is_in id [] = false
is_in id (d ∷ ds) = d == id || is_in id ds

-- Marks the units whose id is in the set, and leaves the others as they are.
abbrev pub mark : List ℕ → EntityInfo → EntityInfo
mark ids e = if is_in e.id ids then record e { dead = true } else e

unfoldable pub write_world : WorldIdentity → Bytes
write_world w = written (put_text (take 65535 w.save_dir) ∷ put_u32 w.id1 ∷ put_u32 w.id2 ∷ [])

unfoldable pub read_world : Reader WorldIdentity
read_world = do
  save_dir ← read_text
  id1 ← read_u32
  id2 ← read_u32
  pure (record { save_dir = save_dir; id1 = id1; id2 = id2 })

-- A presence byte, and the block if there is one.
unfoldable pub write_block : {A : Type 0} → (A → Bytes) → Option A → Bytes
write_block write none = put_u8 0
write_block write (some a) = put_u8 1 ++ write a

-- `if err := binary.Read(…, &has); err == nil && has == 1`: an absent presence byte is no error.
unfoldable pub read_block : {A : Type 0} → Reader A → Reader (Option A)
read_block read bs = elim (read_u8 bs) [
  | ok (has, rest) ↦ if has == 1 then (read >>= λ a. pure (some a)) rest else ok (none, rest)
  | err e ↦ ok (none, bs)
]

abbrev pub or_empty : {A : Type 0} → Option (List A) → List A
or_empty none = []
or_empty (some l) = l

-- The zones and the dead have a presence byte of 1 even where there are none.
unfoldable pub serialize_entity_update : EntityUpdateMessage → Bytes
serialize_entity_update m = written (
    put_u32 m.count
    ∷ write_all write_entity m.entities
    ∷ write_block write_fort_info m.fort_info
    ∷ write_block write_zones (some m.zones)
    ∷ write_block write_dead (some (dead_ids m.entities))
    ∷ write_block write_world m.world
    ∷ [])

unfoldable pub read_entity_update : Reader EntityUpdateMessage
read_entity_update = do
  count ← read_u32
  entities ← read_many count read_entity
  fort_info ← read_block read_fort_info
  zones ← read_block read_zones
  ids ← read_block read_dead
  world ← read_block read_world
  pure (record {
    count = count;
    entities = map (mark (or_empty ids)) entities;
    fort_info = fort_info;
    zones = or_empty zones;
    world = world;
  })

unfoldable pub deserialize_entity_update : Bytes → Result EntityUpdateMessage
unfolding read_entity_update
deserialize_entity_update = parse 4 read_entity_update
