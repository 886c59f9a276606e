-- ===== src/Protocol/Command/People.antt =====
-- Command payloads about units: labors, work details, positions and squads: the structs of
-- internal/protocol/message.go and their cases of serializeCommand and deserializeCommand in
-- internal/protocol/codec.go.
pub mod RoundTrip
use df_ai.Base.{Bool, Result, [], false, ok, pos, ℕ, ℤ, ◌∷◌}
use df_ai.Protocol.Wire.{
  Bytes, IsI16, IsI32, IsName, IsText, IsU16, IsU8, Reader, limited, pure, put_bool, put_i16,
  put_i32, put_text, put_u16, put_u8, read_bool, read_i16, read_i32, read_text, read_u16, read_u8,
  written, ◌>>=◌,
}

pub record SetLaborDesignation : Type 0 where
  pub unit_id : ℤ
  pub labor_id : ℕ
  pub enable : Bool

abbrev pub FitsSetLaborDesignation : SetLaborDesignation → Type 0
FitsSetLaborDesignation d = IsI32 d.unit_id × IsU8 d.labor_id

abbrev pub zero_set_labor : SetLaborDesignation
zero_set_labor = record { unit_id = pos 0; labor_id = 0; enable = false }

pub write_set_labor : SetLaborDesignation → Bytes
write_set_labor d = written (put_i32 d.unit_id ∷ put_u8 d.labor_id ∷ put_bool d.enable ∷ [])

pub read_set_labor : Reader SetLaborDesignation
read_set_labor = do
  unit_id ← read_i32
  labor_id ← read_u8
  enable ← read_bool
  pure (record { unit_id = unit_id; labor_id = labor_id; enable = enable })

pub record AssignWorkDetailDesignation : Type 0 where
  pub detail_index : ℕ
  pub unit_id : ℤ
  pub add : Bool

abbrev pub FitsAssignWorkDetailDesignation : AssignWorkDetailDesignation → Type 0
FitsAssignWorkDetailDesignation d = IsU16 d.detail_index × IsI32 d.unit_id

abbrev pub zero_assign_work_detail : AssignWorkDetailDesignation
zero_assign_work_detail = record { detail_index = 0; unit_id = pos 0; add = false }

pub write_assign_work_detail : AssignWorkDetailDesignation → Bytes
write_assign_work_detail d =
    written (put_u16 d.detail_index ∷ put_i32 d.unit_id ∷ put_bool d.add ∷ [])

pub read_assign_work_detail : Reader AssignWorkDetailDesignation
read_assign_work_detail = do
  detail_index ← read_u16
  unit_id ← read_i32
  add ← read_bool
  pure (record { detail_index = detail_index; unit_id = unit_id; add = add })

pub record SetWorkDetailModeDesignation : Type 0 where
  pub detail_index : ℕ
  pub mode : ℕ

abbrev pub FitsSetWorkDetailModeDesignation : SetWorkDetailModeDesignation → Type 0
FitsSetWorkDetailModeDesignation d = IsU16 d.detail_index × IsU8 d.mode

abbrev pub zero_set_work_detail_mode : SetWorkDetailModeDesignation
zero_set_work_detail_mode = record { detail_index = 0; mode = 0 }

pub write_set_work_detail_mode : SetWorkDetailModeDesignation → Bytes
write_set_work_detail_mode d = written (put_u16 d.detail_index ∷ put_u8 d.mode ∷ [])

pub read_set_work_detail_mode : Reader SetWorkDetailModeDesignation
read_set_work_detail_mode = do
  detail_index ← read_u16
  mode ← read_u8
  pure (record { detail_index = detail_index; mode = mode })

pub record CreateWorkDetailDesignation : Type 0 where
  pub name : Bytes
  pub mode : ℕ
  pub labor_ids : Bytes

abbrev pub FitsCreateWorkDetailDesignation : CreateWorkDetailDesignation → Type 0
FitsCreateWorkDetailDesignation d = IsName d.name × IsU8 d.mode × IsText d.labor_ids

abbrev pub zero_create_work_detail : CreateWorkDetailDesignation
zero_create_work_detail = record { name = []; mode = 0; labor_ids = [] }

pub write_create_work_detail : CreateWorkDetailDesignation → Result Bytes
write_create_work_detail d =
    limited 255 d.name (ok (written (put_text d.name ∷ put_u8 d.mode ∷ put_text d.labor_ids ∷ [])))

pub read_create_work_detail : Reader CreateWorkDetailDesignation
read_create_work_detail = do
  name ← read_text
  mode ← read_u8
  labor_ids ← read_text
  pure (record { name = name; mode = mode; labor_ids = labor_ids })

pub record AppointPositionDesignation : Type 0 where
  pub unit_id : ℤ
  pub position_code : Bytes

abbrev pub FitsAppointPositionDesignation : AppointPositionDesignation → Type 0
FitsAppointPositionDesignation d = IsI32 d.unit_id × IsName d.position_code

abbrev pub zero_appoint_position : AppointPositionDesignation
zero_appoint_position = record { unit_id = pos 0; position_code = [] }

pub write_appoint_position : AppointPositionDesignation → Result Bytes
write_appoint_position d =
    limited 255 d.position_code (ok (written (put_i32 d.unit_id ∷ put_text d.position_code ∷ [])))

pub read_appoint_position : Reader AppointPositionDesignation
read_appoint_position = do
  unit_id ← read_i32
  position_code ← read_text
  pure (record { unit_id = unit_id; position_code = position_code })

pub record SetBookkeeperPrecisionDesignation : Type 0 where
  pub precision : ℕ

abbrev pub FitsSetBookkeeperPrecisionDesignation : SetBookkeeperPrecisionDesignation → Type 0
FitsSetBookkeeperPrecisionDesignation d = IsU8 d.precision

abbrev pub zero_set_bookkeeper_precision : SetBookkeeperPrecisionDesignation
zero_set_bookkeeper_precision = record { precision = 0 }

pub write_set_bookkeeper_precision : SetBookkeeperPrecisionDesignation → Bytes
write_set_bookkeeper_precision d = written (put_u8 d.precision ∷ [])

pub read_set_bookkeeper_precision : Reader SetBookkeeperPrecisionDesignation
read_set_bookkeeper_precision = do precision ← read_u8; pure (record { precision = precision })

pub record CreateSquadDesignation : Type 0 where
  pub position_code : Bytes

abbrev pub FitsCreateSquadDesignation : CreateSquadDesignation → Type 0
FitsCreateSquadDesignation d = IsName d.position_code

abbrev pub zero_create_squad : CreateSquadDesignation
zero_create_squad = record { position_code = [] }

pub write_create_squad : CreateSquadDesignation → Result Bytes
write_create_squad d = limited 255 d.position_code (ok (written (put_text d.position_code ∷ [])))

pub read_create_squad : Reader CreateSquadDesignation
read_create_squad = do position_code ← read_text; pure (record { position_code = position_code })

pub record AssignSquadDesignation : Type 0 where
  pub squad_id : ℤ
  pub unit_id : ℤ
  pub add : Bool

abbrev pub FitsAssignSquadDesignation : AssignSquadDesignation → Type 0
FitsAssignSquadDesignation d = IsI32 d.squad_id × IsI32 d.unit_id

abbrev pub zero_assign_squad : AssignSquadDesignation
zero_assign_squad = record { squad_id = pos 0; unit_id = pos 0; add = false }

pub write_assign_squad : AssignSquadDesignation → Bytes
write_assign_squad d = written (put_i32 d.squad_id ∷ put_i32 d.unit_id ∷ put_bool d.add ∷ [])

pub read_assign_squad : Reader AssignSquadDesignation
read_assign_squad = do
  squad_id ← read_i32
  unit_id ← read_i32
  add ← read_bool
  pure (record { squad_id = squad_id; unit_id = unit_id; add = add })

pub record SquadOrderDesignation : Type 0 where
  pub squad_id : ℤ
  pub order : ℕ
  pub x : ℤ
  pub y : ℤ
  pub z : ℤ
  pub burrow_name : Bytes

abbrev pub FitsSquadOrderDesignation : SquadOrderDesignation → Type 0
FitsSquadOrderDesignation d =
    IsI32 d.squad_id × IsU8 d.order × IsI16 d.x × IsI16 d.y × IsI16 d.z × IsName d.burrow_name

abbrev pub zero_squad_order : SquadOrderDesignation
zero_squad_order = record {
  squad_id = pos 0;
  order = 0;
  x = pos 0;
  y = pos 0;
  z = pos 0;
  burrow_name = [];
}

pub write_squad_order : SquadOrderDesignation → Result Bytes
write_squad_order d = limited 255 d.burrow_name (
    ok (
      written (
        put_i32 d.squad_id
        ∷ put_u8 d.order
        ∷ put_i16 d.x
        ∷ put_i16 d.y
        ∷ put_i16 d.z
        ∷ put_text d.burrow_name
        ∷ [])))

pub read_squad_order : Reader SquadOrderDesignation
read_squad_order = do
  squad_id ← read_i32
  order ← read_u8
  x ← read_i16
  y ← read_i16
  z ← read_i16
  burrow_name ← read_text
  pure (record {
    squad_id = squad_id;
    order = order;
    x = x;
    y = y;
    z = z;
    burrow_name = burrow_name;
  })
