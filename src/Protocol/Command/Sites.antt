-- ===== src/Protocol/Command/Sites.antt =====
-- Command payloads about buildings at a tile: jobs, levers, workshops, depots and farm plots: the
-- structs of internal/protocol/message.go and their cases of serializeCommand and
-- deserializeCommand in internal/protocol/codec.go.
pub mod RoundTrip
use df_ai.Base.{Bool, Result, [], false, ok, pos, ℕ, ℤ, ◌∷◌}
use df_ai.Protocol.Wire.{
  Bytes, IsI16, IsI32, IsText, IsU8, Reader, limited, pure, put_bool, put_i16, put_i32, put_text,
  put_u8, read_bool, read_i16, read_i32, read_text, read_u8, written, ◌>>=◌,
}

pub record UnsuspendDesignation : Type 0 where
  pub x : ℤ
  pub y : ℤ
  pub z : ℤ

abbrev pub FitsUnsuspendDesignation : UnsuspendDesignation → Type 0
FitsUnsuspendDesignation d = IsI16 d.x × IsI16 d.y × IsI16 d.z

abbrev pub zero_unsuspend : UnsuspendDesignation
zero_unsuspend = record { x = pos 0; y = pos 0; z = pos 0 }

pub write_unsuspend : UnsuspendDesignation → Bytes
write_unsuspend d = written (put_i16 d.x ∷ put_i16 d.y ∷ put_i16 d.z ∷ [])

pub read_unsuspend : Reader UnsuspendDesignation
read_unsuspend = do x ← read_i16; y ← read_i16; z ← read_i16; pure (record { x = x; y = y; z = z })

pub record RemoveBuildingDesignation : Type 0 where
  pub x : ℤ
  pub y : ℤ
  pub z : ℤ

abbrev pub FitsRemoveBuildingDesignation : RemoveBuildingDesignation → Type 0
FitsRemoveBuildingDesignation d = IsI16 d.x × IsI16 d.y × IsI16 d.z

abbrev pub zero_remove_building : RemoveBuildingDesignation
zero_remove_building = record { x = pos 0; y = pos 0; z = pos 0 }

pub write_remove_building : RemoveBuildingDesignation → Bytes
write_remove_building d = written (put_i16 d.x ∷ put_i16 d.y ∷ put_i16 d.z ∷ [])

pub read_remove_building : Reader RemoveBuildingDesignation
read_remove_building = do
  x ← read_i16
  y ← read_i16
  z ← read_i16
  pure (record { x = x; y = y; z = z })

pub record PullLeverDesignation : Type 0 where
  pub x : ℤ
  pub y : ℤ
  pub z : ℤ

abbrev pub FitsPullLeverDesignation : PullLeverDesignation → Type 0
FitsPullLeverDesignation d = IsI16 d.x × IsI16 d.y × IsI16 d.z

abbrev pub zero_pull_lever : PullLeverDesignation
zero_pull_lever = record { x = pos 0; y = pos 0; z = pos 0 }

pub write_pull_lever : PullLeverDesignation → Bytes
write_pull_lever d = written (put_i16 d.x ∷ put_i16 d.y ∷ put_i16 d.z ∷ [])

pub read_pull_lever : Reader PullLeverDesignation
read_pull_lever = do x ← read_i16; y ← read_i16; z ← read_i16; pure (record { x = x; y = y; z = z })

pub record LinkBuildingDesignation : Type 0 where
  pub lever_x : ℤ
  pub lever_y : ℤ
  pub lever_z : ℤ
  pub target_x : ℤ
  pub target_y : ℤ
  pub target_z : ℤ

abbrev pub FitsLinkBuildingDesignation : LinkBuildingDesignation → Type 0
FitsLinkBuildingDesignation d =
    IsI16 d.lever_x
    × IsI16 d.lever_y
    × IsI16 d.lever_z
    × IsI16 d.target_x
    × IsI16 d.target_y
    × IsI16 d.target_z

abbrev pub zero_link_building : LinkBuildingDesignation
zero_link_building = record {
  lever_x = pos 0;
  lever_y = pos 0;
  lever_z = pos 0;
  target_x = pos 0;
  target_y = pos 0;
  target_z = pos 0;
}

pub write_link_building : LinkBuildingDesignation → Bytes
write_link_building d = written (
    put_i16 d.lever_x
    ∷ put_i16 d.lever_y
    ∷ put_i16 d.lever_z
    ∷ put_i16 d.target_x
    ∷ put_i16 d.target_y
    ∷ put_i16 d.target_z
    ∷ [])

pub read_link_building : Reader LinkBuildingDesignation
read_link_building = do
  lever_x ← read_i16
  lever_y ← read_i16
  lever_z ← read_i16
  target_x ← read_i16
  target_y ← read_i16
  target_z ← read_i16
  pure (record {
    lever_x = lever_x;
    lever_y = lever_y;
    lever_z = lever_z;
    target_x = target_x;
    target_y = target_y;
    target_z = target_z;
  })

pub record SetWorkshopProfileDesignation : Type 0 where
  pub x : ℤ
  pub y : ℤ
  pub z : ℤ
  pub min_skill_level : ℤ
  pub max_skill_level : ℤ
  pub worker_unit_id : ℤ

abbrev pub FitsSetWorkshopProfileDesignation : SetWorkshopProfileDesignation → Type 0
FitsSetWorkshopProfileDesignation d =
    IsI16 d.x
    × IsI16 d.y
    × IsI16 d.z
    × IsI32 d.min_skill_level
    × IsI32 d.max_skill_level
    × IsI32 d.worker_unit_id

abbrev pub zero_set_workshop_profile : SetWorkshopProfileDesignation
zero_set_workshop_profile = record {
  x = pos 0;
  y = pos 0;
  z = pos 0;
  min_skill_level = pos 0;
  max_skill_level = pos 0;
  worker_unit_id = pos 0;
}

pub write_set_workshop_profile : SetWorkshopProfileDesignation → Bytes
write_set_workshop_profile d = written (
    put_i16 d.x
    ∷ put_i16 d.y
    ∷ put_i16 d.z
    ∷ put_i32 d.min_skill_level
    ∷ put_i32 d.max_skill_level
    ∷ put_i32 d.worker_unit_id
    ∷ [])

pub read_set_workshop_profile : Reader SetWorkshopProfileDesignation
read_set_workshop_profile = do
  x ← read_i16
  y ← read_i16
  z ← read_i16
  min_skill_level ← read_i32
  max_skill_level ← read_i32
  worker_unit_id ← read_i32
  pure (record {
    x = x;
    y = y;
    z = z;
    min_skill_level = min_skill_level;
    max_skill_level = max_skill_level;
    worker_unit_id = worker_unit_id;
  })

pub record SetDepotTradeFlagsDesignation : Type 0 where
  pub x : ℤ
  pub y : ℤ
  pub z : ℤ
  pub trader_requested : Bool
  pub anyone_can_trade : Bool

abbrev pub FitsSetDepotTradeFlagsDesignation : SetDepotTradeFlagsDesignation → Type 0
FitsSetDepotTradeFlagsDesignation d = IsI16 d.x × IsI16 d.y × IsI16 d.z

abbrev pub zero_set_depot_trade_flags : SetDepotTradeFlagsDesignation
zero_set_depot_trade_flags = record {
  x = pos 0;
  y = pos 0;
  z = pos 0;
  trader_requested = false;
  anyone_can_trade = false;
}

pub write_set_depot_trade_flags : SetDepotTradeFlagsDesignation → Bytes
write_set_depot_trade_flags d = written (
    put_i16 d.x
    ∷ put_i16 d.y
    ∷ put_i16 d.z
    ∷ put_bool d.trader_requested
    ∷ put_bool d.anyone_can_trade
    ∷ [])

pub read_set_depot_trade_flags : Reader SetDepotTradeFlagsDesignation
read_set_depot_trade_flags = do
  x ← read_i16
  y ← read_i16
  z ← read_i16
  trader_requested ← read_bool
  anyone_can_trade ← read_bool
  pure (record {
    x = x;
    y = y;
    z = z;
    trader_requested = trader_requested;
    anyone_can_trade = anyone_can_trade;
  })

pub record SetFarmCropDesignation : Type 0 where
  pub x : ℤ
  pub y : ℤ
  pub z : ℤ
  pub season : ℕ
  pub crop_name : Bytes

abbrev pub FitsSetFarmCropDesignation : SetFarmCropDesignation → Type 0
FitsSetFarmCropDesignation d =
    IsI16 d.x × IsI16 d.y × IsI16 d.z × IsU8 d.season × IsText d.crop_name

abbrev pub zero_set_farm_crop : SetFarmCropDesignation
zero_set_farm_crop = record { x = pos 0; y = pos 0; z = pos 0; season = 0; crop_name = [] }

pub write_set_farm_crop : SetFarmCropDesignation → Result Bytes
write_set_farm_crop d = limited 65535 d.crop_name (
    ok (
      written
        (put_i16 d.x ∷ put_i16 d.y ∷ put_i16 d.z ∷ put_u8 d.season ∷ put_text d.crop_name ∷ [])))

pub read_set_farm_crop : Reader SetFarmCropDesignation
read_set_farm_crop = do
  x ← read_i16
  y ← read_i16
  z ← read_i16
  season ← read_u8
  crop_name ← read_text
  pure (record { x = x; y = y; z = z; season = season; crop_name = crop_name })
