-- ===== src/Protocol/Command/People/RoundTrip.antt =====
-- Reading back the payloads that Command/People.antt writes.
use df_ai.Protocol.Wire.{Bytes}
use df_ai.Protocol.Wire.Reads.{IsName-IsText, reads}
use df_ai.Base.{ok, ◌++◌, ◌>>=◌, ◌≡◌}
use df_ai.Protocol.Command.People.{
  AppointPositionDesignation, AssignSquadDesignation, AssignWorkDetailDesignation,
  CreateSquadDesignation, CreateWorkDetailDesignation, FitsAppointPositionDesignation,
  FitsAssignSquadDesignation, FitsAssignWorkDetailDesignation, FitsCreateSquadDesignation,
  FitsCreateWorkDetailDesignation, FitsSetBookkeeperPrecisionDesignation, FitsSetLaborDesignation,
  FitsSetWorkDetailModeDesignation, FitsSquadOrderDesignation, SetBookkeeperPrecisionDesignation,
  SetLaborDesignation, SetWorkDetailModeDesignation, SquadOrderDesignation, read_appoint_position,
  read_assign_squad, read_assign_work_detail, read_create_squad, read_create_work_detail,
  read_set_bookkeeper_precision, read_set_labor, read_set_work_detail_mode, read_squad_order,
  write_appoint_position, write_assign_squad, write_assign_work_detail, write_create_squad,
  write_create_work_detail, write_set_bookkeeper_precision, write_set_labor,
  write_set_work_detail_mode, write_squad_order,
}

pub read_set_labor-write_set_labor :
    (d : SetLaborDesignation) (rest : Bytes)
    → FitsSetLaborDesignation d
    → read_set_labor (write_set_labor d ++ rest) ≡ ok (d, rest)
unfolding write_set_labor read_set_labor
read_set_labor-write_set_labor d rest h = simp (reads, h.0, h.1)

pub read_assign_work_detail-write_assign_work_detail :
    (d : AssignWorkDetailDesignation) (rest : Bytes)
    → FitsAssignWorkDetailDesignation d
    → read_assign_work_detail (write_assign_work_detail d ++ rest) ≡ ok (d, rest)
unfolding write_assign_work_detail read_assign_work_detail
read_assign_work_detail-write_assign_work_detail d rest h = simp (reads, h.0, h.1)

pub read_set_work_detail_mode-write_set_work_detail_mode :
    (d : SetWorkDetailModeDesignation) (rest : Bytes)
    → FitsSetWorkDetailModeDesignation d
    → read_set_work_detail_mode (write_set_work_detail_mode d ++ rest) ≡ ok (d, rest)
unfolding write_set_work_detail_mode read_set_work_detail_mode
read_set_work_detail_mode-write_set_work_detail_mode d rest h = simp (reads, h.0, h.1)

pub read_create_work_detail-write_create_work_detail :
    (d : CreateWorkDetailDesignation) (rest : Bytes)
    → FitsCreateWorkDetailDesignation d
    → (write_create_work_detail d >>= λ bs. read_create_work_detail (bs ++ rest)) ≡ ok (d, rest)
unfolding write_create_work_detail read_create_work_detail
read_create_work_detail-write_create_work_detail d rest h =
    simp (reads, h.0, IsName-IsText d.name h.0, h.1, h.2)

pub read_appoint_position-write_appoint_position :
    (d : AppointPositionDesignation) (rest : Bytes)
    → FitsAppointPositionDesignation d
    → (write_appoint_position d >>= λ bs. read_appoint_position (bs ++ rest)) ≡ ok (d, rest)
unfolding write_appoint_position read_appoint_position
read_appoint_position-write_appoint_position d rest h =
    simp (reads, h.0, h.1, IsName-IsText d.position_code h.1)

pub read_set_bookkeeper_precision-write_set_bookkeeper_precision :
    (d : SetBookkeeperPrecisionDesignation) (rest : Bytes)
    → FitsSetBookkeeperPrecisionDesignation d
    → read_set_bookkeeper_precision (write_set_bookkeeper_precision d ++ rest) ≡ ok (d, rest)
unfolding write_set_bookkeeper_precision read_set_bookkeeper_precision
read_set_bookkeeper_precision-write_set_bookkeeper_precision d rest h = simp (reads, h)

pub read_create_squad-write_create_squad :
    (d : CreateSquadDesignation) (rest : Bytes)
    → FitsCreateSquadDesignation d
    → (write_create_squad d >>= λ bs. read_create_squad (bs ++ rest)) ≡ ok (d, rest)
unfolding write_create_squad read_create_squad
read_create_squad-write_create_squad d rest h = simp (reads, h, IsName-IsText d.position_code h)

pub read_assign_squad-write_assign_squad :
    (d : AssignSquadDesignation) (rest : Bytes)
    → FitsAssignSquadDesignation d
    → read_assign_squad (write_assign_squad d ++ rest) ≡ ok (d, rest)
unfolding write_assign_squad read_assign_squad
read_assign_squad-write_assign_squad d rest h = simp (reads, h.0, h.1)

pub read_squad_order-write_squad_order :
    (d : SquadOrderDesignation) (rest : Bytes)
    → FitsSquadOrderDesignation d
    → (write_squad_order d >>= λ bs. read_squad_order (bs ++ rest)) ≡ ok (d, rest)
unfolding write_squad_order read_squad_order
read_squad_order-write_squad_order d rest h =
    simp (reads, h.0, h.1, h.2, h.3, h.4, h.5, IsName-IsText d.burrow_name h.5)
