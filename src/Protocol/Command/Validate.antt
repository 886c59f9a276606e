-- ===== src/Protocol/Command/Validate.antt =====
-- CommandMessage.Validate of internal/protocol/message.go. Each check that fails gives an error; the
-- errors differ in their text alone, so here they are one.
pub mod Sent
use df_ai.Protocol.Wire.{Bytes}
use df_ai.Base.{
  Bool, Result, [], false, guard, leb, ltb, ltb_ℤ, negsuc, not, ok, pos, true, validation_failed, ℕ,
  ℤ, ◌&&◌, ◌==◌, ◌>>◌, ◌||◌, ◌∷◌,
}
use df_ai.Protocol.Command.Types.{
  CommandType, appoint_position, assign_burrow, bring_goods_to_depot, build, build_bridge,
  build_farm_plot, cancel, cancel_order, command_type_of, create_work_detail, designate_burrow, dig,
  edit_order, pause, queue_job, remove_burrow, set_alert, set_bookkeeper_precision, set_farm_crop,
  set_labor, set_work_detail_mode, set_workshop_profile, squad_order, unmark_trade_goods,
  work_order,
}
use df_ai.Protocol.Command.Message.{CommandMessage}
use df_ai.Protocol.Command.Jobs.{
  BuildDesignation, QueueJobDesignation, WorkOrderDesignation, build_orient_any, build_type_by_name,
  order_type_by_name, order_type_custom_reaction, quality_tier_any,
}

-- `if !test { return errors.New(…) }`
abbrev pub need : Bool → Result (Unit {0})
need test = guard test validation_failed

abbrev pub leb_ℤ : ℤ → ℤ → Bool
leb_ℤ a b = not (ltb_ℤ b a)

abbrev pub is_empty : Bytes → Bool
is_empty [] = true
is_empty (b ∷ bs) = false

-- The ranges of IsBuildTypeWorkshop and its siblings.
abbrev between : ℕ → ℕ → ℕ → Bool
between lo hi t = leb lo t && ltb t hi

unfoldable pub is_build_type_workshop : ℕ → Bool
is_build_type_workshop t = between 0x10 0x30 t

unfoldable pub is_build_type_furniture : ℕ → Bool
is_build_type_furniture t = between 0x30 0x50 t

unfoldable pub is_build_type_construction : ℕ → Bool
is_build_type_construction t = between 0x01 0x10 t

unfoldable pub is_build_type_door : ℕ → Bool
is_build_type_door t = between 0x50 0x70 t

unfoldable pub is_build_type_furnace : ℕ → Bool
is_build_type_furnace t = between 0x70 0x80 t

unfoldable pub is_build_type_depot : ℕ → Bool
is_build_type_depot t = between 0x80 0x90 t

unfoldable pub is_build_type_infra : ℕ → Bool
is_build_type_infra t = between 0x90 0xa0 t

unfoldable pub is_build_type_water_power : ℕ → Bool
is_build_type_water_power t = between 0xa0 0xb0 t

unfoldable pub is_build_type_trap : ℕ → Bool
is_build_type_trap t = between 0xb0 0xc0 t

-- The build types that Validate lets through.
unfoldable pub is_build_type : ℕ → Bool
unfolding is_build_type_workshop is_build_type_furniture is_build_type_construction
    is_build_type_door is_build_type_furnace is_build_type_depot is_build_type_infra
    is_build_type_water_power is_build_type_trap
is_build_type t =
    t == build_type_by_name
    || is_build_type_construction t
    || is_build_type_workshop t
    || is_build_type_furniture t
    || is_build_type_door t
    || is_build_type_furnace t
    || is_build_type_depot t
    || is_build_type_infra t
    || is_build_type_water_power t
    || is_build_type_trap t

unfoldable pub validate_build : BuildDesignation → Result (Unit {0})
validate_build d =
    need (is_build_type d.build_type)
    >> need (not (d.build_type == build_type_by_name && is_empty d.build_type_name))
    >> need (leb d.material 0x03)
    >> need (d.quality == quality_tier_any || leb d.quality 0x06)
    >> need (d.orientation == build_orient_any || leb d.orientation 0x03)

unfoldable pub validate_queue_job : QueueJobDesignation → Result (Unit {0})
validate_queue_job d =
    need (not (d.order_type == order_type_by_name && is_empty d.job_type_name))
    >> need (not (d.order_type == order_type_custom_reaction && is_empty d.reaction_code))

unfoldable pub validate_work_order : WorkOrderDesignation → Result (Unit {0})
validate_work_order d =
    need (not (d.order_type == order_type_by_name && is_empty d.job_type_name))
    >> need (leb d.frequency 0x04)

-- MaxSkillLevel == -1
abbrev is_uncapped : ℤ → Bool
is_uncapped (pos n) = false
is_uncapped (negsuc n) = n == 0

-- The checks of each type; a type that has no case has none.
unfoldable pub validate_payload : CommandType → CommandMessage → Result (Unit {0})
validate_payload dig m = need (
    leb_ℤ m.region.x1 m.region.x2 && leb_ℤ m.region.y1 m.region.y2 && leb_ℤ m.region.z1 m.region.z2)
validate_payload cancel m = need (
    leb_ℤ m.region.x1 m.region.x2 && leb_ℤ m.region.y1 m.region.y2 && leb_ℤ m.region.z1 m.region.z2)
validate_payload build m = validate_build m.build
validate_payload pause m =
    need (leb m.pause.mode 0x02) >> need (not (m.pause.mode == 0x02 && m.pause.ticks == 0))
validate_payload set_labor m = need (leb m.set_labor.labor_id 93)
validate_payload queue_job m = validate_queue_job m.queue_job
validate_payload work_order m = validate_work_order m.order
validate_payload build_farm_plot m =
    need (leb_ℤ m.farm_plot.x1 m.farm_plot.x2 && leb_ℤ m.farm_plot.y1 m.farm_plot.y2)
validate_payload set_farm_crop m =
    need (leb m.set_farm_crop.season 3 || m.set_farm_crop.season == 0xff)
    >> need (not (is_empty m.set_farm_crop.crop_name))
validate_payload designate_burrow m =
    need (not (is_empty m.designate_burrow.name))
    >> need (
        leb_ℤ m.designate_burrow.x1 m.designate_burrow.x2
        && leb_ℤ m.designate_burrow.y1 m.designate_burrow.y2
        && leb_ℤ m.designate_burrow.z1 m.designate_burrow.z2)
validate_payload remove_burrow m = need (not (is_empty m.remove_burrow.name))
validate_payload assign_burrow m = need (not (is_empty m.assign_burrow.name))
validate_payload set_alert m = need (not (is_empty m.set_alert.name))
validate_payload build_bridge m =
    need (leb_ℤ m.build_bridge.x1 m.build_bridge.x2 && leb_ℤ m.build_bridge.y1 m.build_bridge.y2)
    >> need (leb m.build_bridge.direction 0x04)
validate_payload set_workshop_profile m =
    let lo = m.set_workshop_profile.min_skill_level in
    let hi = m.set_workshop_profile.max_skill_level in
    need (leb_ℤ (pos 0) lo && leb_ℤ lo (pos 20))
    >> need (is_uncapped hi || (leb_ℤ (pos 0) hi && leb_ℤ hi (pos 20)))
    >> need (is_uncapped hi || leb_ℤ lo hi)
validate_payload set_work_detail_mode m = need (leb m.set_work_detail_mode.mode 0x03)
validate_payload create_work_detail m =
    need (not (is_empty m.create_work_detail.name)) >> need (leb m.create_work_detail.mode 0x03)
validate_payload bring_goods_to_depot m =
    need (leb_ℤ (pos 1) m.bring_goods_to_depot.max_count)
    >> need (leb m.bring_goods_to_depot.item_class 0x01)
validate_payload appoint_position m = need (not (is_empty m.appoint_position.position_code))
validate_payload set_bookkeeper_precision m = need (leb m.set_bookkeeper_precision.precision 0x04)
validate_payload squad_order m =
    need (leb m.squad_order.order 0x02)
    >> need (not (m.squad_order.order == 0x01 && is_empty m.squad_order.burrow_name))
validate_payload cancel_order m = need (leb_ℤ (pos 0) m.cancel_order.order_id)
validate_payload edit_order m =
    need (leb_ℤ (pos 0) m.edit_order.order_id)
    >> need (m.edit_order.has_amount || m.edit_order.has_frequency)
    >> need
        (not (m.edit_order.has_amount && (m.edit_order.amount == 0 || ltb 100 m.edit_order.amount)))
    >> need (not (m.edit_order.has_frequency && ltb 0x04 m.edit_order.frequency))
validate_payload unmark_trade_goods m =
    need (leb_ℤ (pos 1) m.unmark_trade_goods.max_count)
    >> need (leb m.unmark_trade_goods.item_class 0x01)
validate_payload other m = ok tt

unfoldable pub validate_command : CommandMessage → Result (Unit {0})
unfolding validate_payload
validate_command m =
    need (leb 0x01 m.command_type && leb m.command_type 0x2c)
    >> validate_payload (command_type_of m.command_type) m
