-- ===== src/Protocol/Command/Burrows.antt =====
-- Command payloads about burrows, alerts and blueprints: the structs of
-- internal/protocol/message.go and their cases of serializeCommand and deserializeCommand in
-- internal/protocol/codec.go.
pub mod RoundTrip
use df_ai.Base.{Bool, Result, [], false, ok, pos, ℤ, ◌∷◌}
use df_ai.Protocol.Wire.{
  Bytes, IsI16, IsI32, IsName, Reader, limited, pure, put_bool, put_i16, put_i32, put_text,
  read_bool, read_i16, read_i32, read_text, written, ◌>>=◌,
}

pub record DesignateBurrowDesignation : Type 0 where
  pub name : Bytes
  pub x1 : ℤ
  pub y1 : ℤ
  pub z1 : ℤ
  pub x2 : ℤ
  pub y2 : ℤ
  pub z2 : ℤ

abbrev pub FitsDesignateBurrowDesignation : DesignateBurrowDesignation → Type 0
FitsDesignateBurrowDesignation d =
    IsName d.name × IsI16 d.x1 × IsI16 d.y1 × IsI16 d.z1 × IsI16 d.x2 × IsI16 d.y2 × IsI16 d.z2

abbrev pub zero_designate_burrow : DesignateBurrowDesignation
zero_designate_burrow = record {
  name = [];
  x1 = pos 0;
  y1 = pos 0;
  z1 = pos 0;
  x2 = pos 0;
  y2 = pos 0;
  z2 = pos 0;
}

pub write_designate_burrow : DesignateBurrowDesignation → Result Bytes
write_designate_burrow d = limited 255 d.name (
    ok (
      written (
        put_text d.name
        ∷ put_i16 d.x1
        ∷ put_i16 d.y1
        ∷ put_i16 d.z1
        ∷ put_i16 d.x2
        ∷ put_i16 d.y2
        ∷ put_i16 d.z2
        ∷ [])))

pub read_designate_burrow : Reader DesignateBurrowDesignation
read_designate_burrow = do
  name ← read_text
  x1 ← read_i16
  y1 ← read_i16
  z1 ← read_i16
  x2 ← read_i16
  y2 ← read_i16
  z2 ← read_i16
  pure (record { name = name; x1 = x1; y1 = y1; z1 = z1; x2 = x2; y2 = y2; z2 = z2 })

pub record RemoveBurrowDesignation : Type 0 where
  pub name : Bytes

abbrev pub FitsRemoveBurrowDesignation : RemoveBurrowDesignation → Type 0
FitsRemoveBurrowDesignation d = IsName d.name

abbrev pub zero_remove_burrow : RemoveBurrowDesignation
zero_remove_burrow = record { name = [] }

pub write_remove_burrow : RemoveBurrowDesignation → Result Bytes
write_remove_burrow d = limited 255 d.name (ok (written (put_text d.name ∷ [])))

pub read_remove_burrow : Reader RemoveBurrowDesignation
read_remove_burrow = do name ← read_text; pure (record { name = name })

pub record AssignBurrowDesignation : Type 0 where
  pub name : Bytes
  pub assign : Bool
  pub all_citizens : Bool
  pub unit_id : ℤ

abbrev pub FitsAssignBurrowDesignation : AssignBurrowDesignation → Type 0
FitsAssignBurrowDesignation d = IsName d.name × IsI32 d.unit_id

abbrev pub zero_assign_burrow : AssignBurrowDesignation
zero_assign_burrow = record { name = []; assign = false; all_citizens = false; unit_id = pos 0 }

pub write_assign_burrow : AssignBurrowDesignation → Result Bytes
write_assign_burrow d = limited 255 d.name (
    ok (
      written
        (put_text d.name ∷ put_bool d.assign ∷ put_bool d.all_citizens ∷ put_i32 d.unit_id ∷ [])))

pub read_assign_burrow : Reader AssignBurrowDesignation
read_assign_burrow = do
  name ← read_text
  assign ← read_bool
  all_citizens ← read_bool
  unit_id ← read_i32
  pure (record { name = name; assign = assign; all_citizens = all_citizens; unit_id = unit_id })

pub record SetAlertDesignation : Type 0 where
  pub name : Bytes
  pub active : Bool

abbrev pub FitsSetAlertDesignation : SetAlertDesignation → Type 0
FitsSetAlertDesignation d = IsName d.name

abbrev pub zero_set_alert : SetAlertDesignation
zero_set_alert = record { name = []; active = false }

pub write_set_alert : SetAlertDesignation → Result Bytes
write_set_alert d = limited 255 d.name (ok (written (put_text d.name ∷ put_bool d.active ∷ [])))

pub read_set_alert : Reader SetAlertDesignation
read_set_alert = do
  name ← read_text
  active ← read_bool
  pure (record { name = name; active = active })

pub record BlueprintPlacement : Type 0 where
  pub blueprint_name : Bytes
  pub origin_x : ℤ
  pub origin_y : ℤ
  pub origin_z : ℤ

abbrev pub FitsBlueprintPlacement : BlueprintPlacement → Type 0
FitsBlueprintPlacement d =
    IsName d.blueprint_name × IsI16 d.origin_x × IsI16 d.origin_y × IsI16 d.origin_z

abbrev pub zero_blueprint : BlueprintPlacement
zero_blueprint = record {
  blueprint_name = [];
  origin_x = pos 0;
  origin_y = pos 0;
  origin_z = pos 0;
}

pub write_blueprint : BlueprintPlacement → Result Bytes
write_blueprint d = limited 255 d.blueprint_name (
    ok (
      written (
        put_text d.blueprint_name
        ∷ put_i16 d.origin_x
        ∷ put_i16 d.origin_y
        ∷ put_i16 d.origin_z
        ∷ [])))

pub read_blueprint : Reader BlueprintPlacement
read_blueprint = do
  blueprint_name ← read_text
  origin_x ← read_i16
  origin_y ← read_i16
  origin_z ← read_i16
  pure (record {
    blueprint_name = blueprint_name;
    origin_x = origin_x;
    origin_y = origin_y;
    origin_z = origin_z;
  })
