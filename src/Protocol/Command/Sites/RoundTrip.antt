-- ===== src/Protocol/Command/Sites/RoundTrip.antt =====
-- Reading back the payloads that Command/Sites.antt writes.
use df_ai.Protocol.Wire.{Bytes}
use df_ai.Protocol.Wire.Reads.{reads}
use df_ai.Base.{ok, ◌++◌, ◌>>=◌, ◌≡◌}
use df_ai.Protocol.Command.Sites.{
  FitsLinkBuildingDesignation, FitsPullLeverDesignation, FitsRemoveBuildingDesignation,
  FitsSetDepotTradeFlagsDesignation, FitsSetFarmCropDesignation, FitsSetWorkshopProfileDesignation,
  FitsUnsuspendDesignation, LinkBuildingDesignation, PullLeverDesignation,
  RemoveBuildingDesignation, SetDepotTradeFlagsDesignation, SetFarmCropDesignation,
  SetWorkshopProfileDesignation, UnsuspendDesignation, read_link_building, read_pull_lever,
  read_remove_building, read_set_depot_trade_flags, read_set_farm_crop, read_set_workshop_profile,
  read_unsuspend, write_link_building, write_pull_lever, write_remove_building,
  write_set_depot_trade_flags, write_set_farm_crop, write_set_workshop_profile, write_unsuspend,
}

pub read_unsuspend-write_unsuspend :
    (d : UnsuspendDesignation) (rest : Bytes)
    → FitsUnsuspendDesignation d
    → read_unsuspend (write_unsuspend d ++ rest) ≡ ok (d, rest)
unfolding write_unsuspend read_unsuspend
read_unsuspend-write_unsuspend d rest h = simp (reads, h.0, h.1, h.2)

pub read_remove_building-write_remove_building :
    (d : RemoveBuildingDesignation) (rest : Bytes)
    → FitsRemoveBuildingDesignation d
    → read_remove_building (write_remove_building d ++ rest) ≡ ok (d, rest)
unfolding write_remove_building read_remove_building
read_remove_building-write_remove_building d rest h = simp (reads, h.0, h.1, h.2)

pub read_pull_lever-write_pull_lever :
    (d : PullLeverDesignation) (rest : Bytes)
    → FitsPullLeverDesignation d
    → read_pull_lever (write_pull_lever d ++ rest) ≡ ok (d, rest)
unfolding write_pull_lever read_pull_lever
read_pull_lever-write_pull_lever d rest h = simp (reads, h.0, h.1, h.2)

pub read_link_building-write_link_building :
    (d : LinkBuildingDesignation) (rest : Bytes)
    → FitsLinkBuildingDesignation d
    → read_link_building (write_link_building d ++ rest) ≡ ok (d, rest)
unfolding write_link_building read_link_building
read_link_building-write_link_building d rest h = simp (reads, h.0, h.1, h.2, h.3, h.4, h.5)

pub read_set_workshop_profile-write_set_workshop_profile :
    (d : SetWorkshopProfileDesignation) (rest : Bytes)
    → FitsSetWorkshopProfileDesignation d
    → read_set_workshop_profile (write_set_workshop_profile d ++ rest) ≡ ok (d, rest)
unfolding write_set_workshop_profile read_set_workshop_profile
read_set_workshop_profile-write_set_workshop_profile d rest h =
    simp (reads, h.0, h.1, h.2, h.3, h.4, h.5)

pub read_set_depot_trade_flags-write_set_depot_trade_flags :
    (d : SetDepotTradeFlagsDesignation) (rest : Bytes)
    → FitsSetDepotTradeFlagsDesignation d
    → read_set_depot_trade_flags (write_set_depot_trade_flags d ++ rest) ≡ ok (d, rest)
unfolding write_set_depot_trade_flags read_set_depot_trade_flags
read_set_depot_trade_flags-write_set_depot_trade_flags d rest h = simp (reads, h.0, h.1, h.2)

pub read_set_farm_crop-write_set_farm_crop :
    (d : SetFarmCropDesignation) (rest : Bytes)
    → FitsSetFarmCropDesignation d
    → (write_set_farm_crop d >>= λ bs. read_set_farm_crop (bs ++ rest)) ≡ ok (d, rest)
unfolding write_set_farm_crop read_set_farm_crop
read_set_farm_crop-write_set_farm_crop d rest h = simp (reads, h.0, h.1, h.2, h.3, h.4)
