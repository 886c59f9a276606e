-- ===== src/Protocol/Messages/Entities/Blocks.antt =====
-- Writing and reading the parts of an ENTITY_UPDATE, of internal/protocol/codec.go.
use mathlib.Core.Option
use df_ai.Base.{
  All, List, Option, false, length, length-take-le, map, none, ok, refl, some, take, ℕ, ℤ, ◌++◌,
  ◌≡◌,
}
use df_ai.Protocol.Wire.{
  Bytes, IsI16, IsI32, IsU16, IsU32, IsU64, IsU8, Reader, pure, put_i32, put_u32, put_u8, read_i32,
  read_many, read_u32, read_u8, write_all,
}
use df_ai.Protocol.Wire.Reads.{
  bind_ok, read_i32-put_i32, read_many-write_all, read_many-write_all-map, read_u32-put_u32, reads,
}
use df_ai.Protocol.Messages.Entities.{
  EntityInfo, FortInfo, WorldIdentity, ZoneData, read_block, read_dead, read_entity, read_fort_info,
  read_world, read_zone_data, read_zones, write_block, write_dead, write_entity, write_fort_info,
  write_world, write_zone_data, write_zones,
}

abbrev pub FitsEntity : EntityInfo → Type 0
FitsEntity e = IsU32 e.id × IsI16 e.x × IsI16 e.y × IsI16 e.z × IsU8 e.kind × IsU16 e.subtype

-- A unit as its record alone tells of it.
abbrev pub undead : EntityInfo → EntityInfo
undead e = record e { dead = false }

read_entity-write_entity :
    (e : EntityInfo) (rest : Bytes)
    → FitsEntity e
    → read_entity (write_entity e ++ rest) ≡ ok (undead e, rest)
unfolding read_entity write_entity
read_entity-write_entity e rest h = simp (reads, h.0, h.1, h.2, h.3, h.4, h.5)

pub read_entities :
    (n : ℕ) (es : List EntityInfo) (rest : Bytes)
    → length es ≡ n
    → All FitsEntity es
    → read_many n read_entity (write_all write_entity es ++ rest) ≡ ok (map undead es, rest)
read_entities n es rest e h = rw (← e) (
    read_many-write_all-map FitsEntity undead write_entity read_entity read_entity-write_entity es
      rest h)

abbrev pub FitsFortInfo : FortInfo → Type 0
FitsFortInfo f = IsU32 f.days_elapsed × IsU64 f.created_wealth × IsU8 f.season × IsU32 f.year

pub read_fort_info-write_fort_info :
    (f : FortInfo) (rest : Bytes)
    → FitsFortInfo f
    → read_fort_info (write_fort_info f ++ rest) ≡ ok (f, rest)
unfolding read_fort_info write_fort_info
read_fort_info-write_fort_info f rest h = simp (reads, h.0, h.1, h.2, h.3)

abbrev pub FitsZoneData : ZoneData → Type 0
FitsZoneData z =
    IsU32 z.zone_id
    × IsU8 z.zone_type
    × IsI16 z.x1
    × IsI16 z.y1
    × IsI16 z.x2
    × IsI16 z.y2
    × IsI16 z.z1
    × IsI32 z.owner_unit_id
    × IsU16 (length z.assigned_units)
    × All IsI32 z.assigned_units

-- A zone with its level for both corners.
abbrev pub flat : ZoneData → ZoneData
flat z = record z { z2 = z.z1 }

read_units :
    (l : List ℤ) (rest : Bytes)
    → All IsI32 l
    → read_many (length l) read_i32 (write_all put_i32 l ++ rest) ≡ ok (l, rest)
read_units l rest h = read_many-write_all IsI32 put_i32 read_i32 read_i32-put_i32 l rest h

read_zone_data-write_zone_data :
    (z : ZoneData) (rest : Bytes)
    → FitsZoneData z
    → read_zone_data (write_zone_data z ++ rest) ≡ ok (flat z, rest)
unfolding read_zone_data write_zone_data
read_zone_data-write_zone_data z rest h =
    simp (reads, h.0, h.1, h.2, h.3, h.4, h.5, h.6, h.7, h.8, read_units z.assigned_units rest h.9)

pub read_zones-write_zones :
    (zs : List ZoneData) (rest : Bytes)
    → IsU32 (length zs) × All FitsZoneData zs
    → read_zones (write_zones zs ++ rest) ≡ ok (map flat zs, rest)
unfolding read_zones write_zones
read_zones-write_zones zs rest h = simp (
  reads,
  h.0,
  read_many-write_all-map FitsZoneData flat write_zone_data read_zone_data
      read_zone_data-write_zone_data zs rest h.1,
)

pub read_dead-write_dead :
    (ids : List ℕ) (rest : Bytes)
    → IsU32 (length ids) × All IsU32 ids
    → read_dead (write_dead ids ++ rest) ≡ ok (ids, rest)
unfolding read_dead write_dead
read_dead-write_dead ids rest h =
    simp (reads, h.0, read_many-write_all IsU32 put_u32 read_u32 read_u32-put_u32 ids rest h.1)

abbrev pub FitsWorld : WorldIdentity → Type 0
FitsWorld w = IsU32 w.id1 × IsU32 w.id2

-- A directory name is cut to what a uint16 counts.
abbrev pub cut : WorldIdentity → WorldIdentity
cut w = record w { save_dir = take 65535 w.save_dir }

pub read_world-write_world :
    (w : WorldIdentity) (rest : Bytes)
    → FitsWorld w
    → read_world (write_world w ++ rest) ≡ ok (cut w, rest)
unfolding read_world write_world
read_world-write_world w rest h = simp (reads, h.0, h.1, length-take-le 65535 w.save_dir)

abbrev pub OnSome : {A : Type 0} → (A → Type 0) → Option A → Type 0
OnSome P none = Unit {0}
OnSome P (some a) = P a

-- A block that is there, and one that is not.
pub read_block-write_block :
    {A B : Type 0} (P : A → Type 0) (f : A → B) (write : A → Bytes) (read : Reader B)
    → ((a : A) (rest : Bytes) → P a → read (write a ++ rest) ≡ ok (f a, rest))
    → (o : Option A) (rest : Bytes) → OnSome P o
    → read_block read (write_block write o ++ rest) ≡ ok (Option.map f o, rest)
unfolding read_block write_block read_u8 put_u8
read_block-write_block P f write read one none rest h = refl
read_block-write_block P f write read one (some a) rest h =
    bind_ok read (λ b. pure (some b)) (write a ++ rest) (one a rest h)
