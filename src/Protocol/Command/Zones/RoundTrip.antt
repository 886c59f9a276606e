-- ===== src/Protocol/Command/Zones/RoundTrip.antt =====
-- Reading back the payloads that Command/Zones.antt writes.
use df_ai.Protocol.Wire.{Bytes}
use df_ai.Protocol.Wire.Reads.{reads}
use df_ai.Base.{ok, ◌++◌, ◌≡◌}
use df_ai.Protocol.Command.Zones.{
  AssignLodgingDesignation, AssignZoneDesignation, CreateLocationDesignation,
  FitsAssignLodgingDesignation, FitsAssignZoneDesignation, FitsCreateLocationDesignation,
  FitsRemoveZoneDesignation, FitsUnassignLodgingDesignation, FitsUnassignZoneDesignation,
  RemoveZoneDesignation, UnassignLodgingDesignation, UnassignZoneDesignation, read_assign_lodging,
  read_assign_zone, read_create_location, read_remove_zone, read_unassign_lodging,
  read_unassign_zone, write_assign_lodging, write_assign_zone, write_create_location,
  write_remove_zone, write_unassign_lodging, write_unassign_zone,
}

pub read_assign_zone-write_assign_zone :
    (d : AssignZoneDesignation) (rest : Bytes)
    → FitsAssignZoneDesignation d
    → read_assign_zone (write_assign_zone d ++ rest) ≡ ok (d, rest)
unfolding write_assign_zone read_assign_zone
read_assign_zone-write_assign_zone d rest h = simp (reads, h.0, h.1, h.2, h.3)

pub read_unassign_zone-write_unassign_zone :
    (d : UnassignZoneDesignation) (rest : Bytes)
    → FitsUnassignZoneDesignation d
    → read_unassign_zone (write_unassign_zone d ++ rest) ≡ ok (d, rest)
unfolding write_unassign_zone read_unassign_zone
read_unassign_zone-write_unassign_zone d rest h = simp (reads, h.0, h.1, h.2, h.3)

pub read_remove_zone-write_remove_zone :
    (d : RemoveZoneDesignation) (rest : Bytes)
    → FitsRemoveZoneDesignation d
    → read_remove_zone (write_remove_zone d ++ rest) ≡ ok (d, rest)
unfolding write_remove_zone read_remove_zone
read_remove_zone-write_remove_zone d rest h = simp (reads, h.0, h.1, h.2)

pub read_assign_lodging-write_assign_lodging :
    (d : AssignLodgingDesignation) (rest : Bytes)
    → FitsAssignLodgingDesignation d
    → read_assign_lodging (write_assign_lodging d ++ rest) ≡ ok (d, rest)
unfolding write_assign_lodging read_assign_lodging
read_assign_lodging-write_assign_lodging d rest h = simp (reads, h.0, h.1, h.2, h.3, h.4, h.5)

pub read_unassign_lodging-write_unassign_lodging :
    (d : UnassignLodgingDesignation) (rest : Bytes)
    → FitsUnassignLodgingDesignation d
    → read_unassign_lodging (write_unassign_lodging d ++ rest) ≡ ok (d, rest)
unfolding write_unassign_lodging read_unassign_lodging
read_unassign_lodging-write_unassign_lodging d rest h = simp (reads, h.0, h.1, h.2)

pub read_create_location-write_create_location :
    (d : CreateLocationDesignation) (rest : Bytes)
    → FitsCreateLocationDesignation d
    → read_create_location (write_create_location d ++ rest) ≡ ok (d, rest)
unfolding write_create_location read_create_location
read_create_location-write_create_location d rest h = simp (reads, h.0, h.1, h.2, h.3, h.4)
