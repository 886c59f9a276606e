-- ===== src/Protocol/Command/Zones.antt =====
-- Command payloads about zones at a tile, locations and lodgings: the structs of
-- internal/protocol/message.go and their cases of serializeCommand and deserializeCommand in
-- internal/protocol/codec.go.
pub mod RoundTrip
use df_ai.Base.{[], pos, ℕ, ℤ, ◌∷◌}
use df_ai.Protocol.Wire.{
  Bytes, IsI16, IsI32, IsText, IsU8, Reader, pure, put_i16, put_i32, put_text, put_u8, read_i16,
  read_i32, read_text, read_u8, written, ◌>>=◌,
}

pub record AssignZoneDesignation : Type 0 where
  pub x : ℤ
  pub y : ℤ
  pub z : ℤ
  pub unit_id : ℤ

abbrev pub FitsAssignZoneDesignation : AssignZoneDesignation → Type 0
FitsAssignZoneDesignation d = IsI16 d.x × IsI16 d.y × IsI16 d.z × IsI32 d.unit_id

abbrev pub zero_assign_zone : AssignZoneDesignation
zero_assign_zone = record { x = pos 0; y = pos 0; z = pos 0; unit_id = pos 0 }

pub write_assign_zone : AssignZoneDesignation → Bytes
write_assign_zone d = written (put_i16 d.x ∷ put_i16 d.y ∷ put_i16 d.z ∷ put_i32 d.unit_id ∷ [])

pub read_assign_zone : Reader AssignZoneDesignation
read_assign_zone = do
  x ← read_i16
  y ← read_i16
  z ← read_i16
  unit_id ← read_i32
  pure (record { x = x; y = y; z = z; unit_id = unit_id })

pub record UnassignZoneDesignation : Type 0 where
  pub x : ℤ
  pub y : ℤ
  pub z : ℤ
  pub unit_id : ℤ

abbrev pub FitsUnassignZoneDesignation : UnassignZoneDesignation → Type 0
FitsUnassignZoneDesignation d = IsI16 d.x × IsI16 d.y × IsI16 d.z × IsI32 d.unit_id

abbrev pub zero_unassign_zone : UnassignZoneDesignation
zero_unassign_zone = record { x = pos 0; y = pos 0; z = pos 0; unit_id = pos 0 }

pub write_unassign_zone : UnassignZoneDesignation → Bytes
write_unassign_zone d = written (put_i16 d.x ∷ put_i16 d.y ∷ put_i16 d.z ∷ put_i32 d.unit_id ∷ [])

pub read_unassign_zone : Reader UnassignZoneDesignation
read_unassign_zone = do
  x ← read_i16
  y ← read_i16
  z ← read_i16
  unit_id ← read_i32
  pure (record { x = x; y = y; z = z; unit_id = unit_id })

pub record RemoveZoneDesignation : Type 0 where
  pub x : ℤ
  pub y : ℤ
  pub z : ℤ

abbrev pub FitsRemoveZoneDesignation : RemoveZoneDesignation → Type 0
FitsRemoveZoneDesignation d = IsI16 d.x × IsI16 d.y × IsI16 d.z

abbrev pub zero_remove_zone : RemoveZoneDesignation
zero_remove_zone = record { x = pos 0; y = pos 0; z = pos 0 }

pub write_remove_zone : RemoveZoneDesignation → Bytes
write_remove_zone d = written (put_i16 d.x ∷ put_i16 d.y ∷ put_i16 d.z ∷ [])

pub read_remove_zone : Reader RemoveZoneDesignation
read_remove_zone = do
  x ← read_i16
  y ← read_i16
  z ← read_i16
  pure (record { x = x; y = y; z = z })

pub record AssignLodgingDesignation : Type 0 where
  pub tavern_x : ℤ
  pub tavern_y : ℤ
  pub tavern_z : ℤ
  pub bedroom_x : ℤ
  pub bedroom_y : ℤ
  pub bedroom_z : ℤ

abbrev pub FitsAssignLodgingDesignation : AssignLodgingDesignation → Type 0
FitsAssignLodgingDesignation d =
    IsI16 d.tavern_x
    × IsI16 d.tavern_y
    × IsI16 d.tavern_z
    × IsI16 d.bedroom_x
    × IsI16 d.bedroom_y
    × IsI16 d.bedroom_z

abbrev pub zero_assign_lodging : AssignLodgingDesignation
zero_assign_lodging = record {
  tavern_x = pos 0;
  tavern_y = pos 0;
  tavern_z = pos 0;
  bedroom_x = pos 0;
  bedroom_y = pos 0;
  bedroom_z = pos 0;
}

pub write_assign_lodging : AssignLodgingDesignation → Bytes
write_assign_lodging d = written (
    put_i16 d.tavern_x
    ∷ put_i16 d.tavern_y
    ∷ put_i16 d.tavern_z
    ∷ put_i16 d.bedroom_x
    ∷ put_i16 d.bedroom_y
    ∷ put_i16 d.bedroom_z
    ∷ [])

pub read_assign_lodging : Reader AssignLodgingDesignation
read_assign_lodging = do
  tavern_x ← read_i16
  tavern_y ← read_i16
  tavern_z ← read_i16
  bedroom_x ← read_i16
  bedroom_y ← read_i16
  bedroom_z ← read_i16
  pure (record {
    tavern_x = tavern_x;
    tavern_y = tavern_y;
    tavern_z = tavern_z;
    bedroom_x = bedroom_x;
    bedroom_y = bedroom_y;
    bedroom_z = bedroom_z;
  })

pub record UnassignLodgingDesignation : Type 0 where
  pub bedroom_x : ℤ
  pub bedroom_y : ℤ
  pub bedroom_z : ℤ

abbrev pub FitsUnassignLodgingDesignation : UnassignLodgingDesignation → Type 0
FitsUnassignLodgingDesignation d = IsI16 d.bedroom_x × IsI16 d.bedroom_y × IsI16 d.bedroom_z

abbrev pub zero_unassign_lodging : UnassignLodgingDesignation
zero_unassign_lodging = record { bedroom_x = pos 0; bedroom_y = pos 0; bedroom_z = pos 0 }

pub write_unassign_lodging : UnassignLodgingDesignation → Bytes
write_unassign_lodging d =
    written (put_i16 d.bedroom_x ∷ put_i16 d.bedroom_y ∷ put_i16 d.bedroom_z ∷ [])

pub read_unassign_lodging : Reader UnassignLodgingDesignation
read_unassign_lodging = do
  bedroom_x ← read_i16
  bedroom_y ← read_i16
  bedroom_z ← read_i16
  pure (record { bedroom_x = bedroom_x; bedroom_y = bedroom_y; bedroom_z = bedroom_z })

pub record CreateLocationDesignation : Type 0 where
  pub x : ℤ
  pub y : ℤ
  pub z : ℤ
  pub location_type : ℕ
  pub profession : Bytes

abbrev pub FitsCreateLocationDesignation : CreateLocationDesignation → Type 0
FitsCreateLocationDesignation d =
    IsI16 d.x × IsI16 d.y × IsI16 d.z × IsU8 d.location_type × IsText d.profession

abbrev pub zero_create_location : CreateLocationDesignation
zero_create_location = record {
  x = pos 0;
  y = pos 0;
  z = pos 0;
  location_type = 0;
  profession = [];
}

pub write_create_location : CreateLocationDesignation → Bytes
write_create_location d =
    written (
      put_i16 d.x ∷ put_i16 d.y ∷ put_i16 d.z ∷ put_u8 d.location_type ∷ put_text d.profession ∷ [])

pub read_create_location : Reader CreateLocationDesignation
read_create_location = do
  x ← read_i16
  y ← read_i16
  z ← read_i16
  location_type ← read_u8
  profession ← read_text
  pure (record { x = x; y = y; z = z; location_type = location_type; profession = profession })
