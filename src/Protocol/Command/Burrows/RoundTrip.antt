-- ===== src/Protocol/Command/Burrows/RoundTrip.antt =====
-- Reading back the payloads that Command/Burrows.antt writes.
use df_ai.Protocol.Wire.{Bytes}
use df_ai.Protocol.Wire.Reads.{IsName-IsText, reads}
use df_ai.Base.{ok, ◌++◌, ◌>>=◌, ◌≡◌}
use df_ai.Protocol.Command.Burrows.{
  AssignBurrowDesignation, BlueprintPlacement, DesignateBurrowDesignation,
  FitsAssignBurrowDesignation, FitsBlueprintPlacement, FitsDesignateBurrowDesignation,
  FitsRemoveBurrowDesignation, FitsSetAlertDesignation, RemoveBurrowDesignation,
  SetAlertDesignation, read_assign_burrow, read_blueprint, read_designate_burrow,
  read_remove_burrow, read_set_alert, write_assign_burrow, write_blueprint, write_designate_burrow,
  write_remove_burrow, write_set_alert,
}

pub read_designate_burrow-write_designate_burrow :
    (d : DesignateBurrowDesignation) (rest : Bytes)
    → FitsDesignateBurrowDesignation d
    → (write_designate_burrow d >>= λ bs. read_designate_burrow (bs ++ rest)) ≡ ok (d, rest)
unfolding write_designate_burrow read_designate_burrow
read_designate_burrow-write_designate_burrow d rest h =
    simp (reads, h.0, IsName-IsText d.name h.0, h.1, h.2, h.3, h.4, h.5, h.6)

pub read_remove_burrow-write_remove_burrow :
    (d : RemoveBurrowDesignation) (rest : Bytes)
    → FitsRemoveBurrowDesignation d
    → (write_remove_burrow d >>= λ bs. read_remove_burrow (bs ++ rest)) ≡ ok (d, rest)
unfolding write_remove_burrow read_remove_burrow
read_remove_burrow-write_remove_burrow d rest h = simp (reads, h, IsName-IsText d.name h)

pub read_assign_burrow-write_assign_burrow :
    (d : AssignBurrowDesignation) (rest : Bytes)
    → FitsAssignBurrowDesignation d
    → (write_assign_burrow d >>= λ bs. read_assign_burrow (bs ++ rest)) ≡ ok (d, rest)
unfolding write_assign_burrow read_assign_burrow
read_assign_burrow-write_assign_burrow d rest h = simp (reads, h.0, IsName-IsText d.name h.0, h.1)

pub read_set_alert-write_set_alert :
    (d : SetAlertDesignation) (rest : Bytes)
    → FitsSetAlertDesignation d
    → (write_set_alert d >>= λ bs. read_set_alert (bs ++ rest)) ≡ ok (d, rest)
unfolding write_set_alert read_set_alert
read_set_alert-write_set_alert d rest h = simp (reads, h, IsName-IsText d.name h)

pub read_blueprint-write_blueprint :
    (d : BlueprintPlacement) (rest : Bytes)
    → FitsBlueprintPlacement d
    → (write_blueprint d >>= λ bs. read_blueprint (bs ++ rest)) ≡ ok (d, rest)
unfolding write_blueprint read_blueprint
read_blueprint-write_blueprint d rest h =
    simp (reads, h.0, IsName-IsText d.blueprint_name h.0, h.1, h.2, h.3)
