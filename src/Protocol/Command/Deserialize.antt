-- ===== src/Protocol/Command/Deserialize.antt =====
-- deserializeCommand of internal/protocol/codec.go.
use df_ai.Base.{
  Result, err, if◌then◌else◌, length, ltb, ok, payload_too_short, unknown_command_type, ℕ,
}
use df_ai.Protocol.Wire.{Bytes, Reader, fail, pure, read_u32, read_u8, ◌>>=◌}
use df_ai.Protocol.Command.Types.{
  CommandType, appoint_position, assign_burrow, assign_lodging, assign_squad, assign_work_detail,
  assign_zone, blueprint, bring_goods_to_depot, build, build_bridge, build_farm_plot, cancel,
  cancel_order, chop, command_type_of, create_location, create_squad, create_work_detail,
  designate_burrow, dig, edit_order, gather, link_building, pause, pull_lever, queue_job,
  remove_building, remove_burrow, remove_zone, set_alert, set_bookkeeper_precision,
  set_depot_trade_flags, set_farm_crop, set_labor, set_work_detail_mode, set_workshop_profile,
  smooth, squad_order, stockpile, unassign_lodging, unassign_zone, unknown, unmark_trade_goods,
  unsuspend, work_order, zone,
}
use df_ai.Protocol.Command.Message.{CommandMessage, zero_command}
use df_ai.Protocol.Command.Areas.{
  Region, read_build_bridge, read_farm_plot, read_region, read_smooth, read_stockpile, read_zone,
}
use df_ai.Protocol.Command.Zones.{
  read_assign_lodging, read_assign_zone, read_create_location, read_remove_zone,
  read_unassign_lodging, read_unassign_zone,
}
use df_ai.Protocol.Command.Sites.{
  read_link_building, read_pull_lever, read_remove_building, read_set_depot_trade_flags,
  read_set_farm_crop, read_set_workshop_profile, read_unsuspend,
}
use df_ai.Protocol.Command.People.{
  read_appoint_position, read_assign_squad, read_assign_work_detail, read_create_squad,
  read_create_work_detail, read_set_bookkeeper_precision, read_set_labor, read_set_work_detail_mode,
  read_squad_order,
}
use df_ai.Protocol.Command.Burrows.{
  read_assign_burrow, read_blueprint, read_designate_burrow, read_remove_burrow, read_set_alert,
}
use df_ai.Protocol.Command.Orders.{
  read_bring_goods_to_depot, read_cancel_order, read_edit_order, read_pause,
  read_unmark_trade_goods,
}
use df_ai.Protocol.Command.Jobs.{read_build, read_queue_job, read_work_order}

-- Reads a designation into its field of the message.
abbrev pub into : {A : Type 0} → Reader A → (A → CommandMessage) → Reader CommandMessage
into read set = read >>= λ d. pure (set d)

-- The dig type and the region, as DIG and CANCEL have them.
abbrev pub DigPayload : Type 0
DigPayload = ℕ × Region

unfoldable pub read_dig : Reader DigPayload
read_dig = do dig_type ← read_u8; region ← read_region; pure (dig_type, region)

-- The switch, and its default.
unfoldable pub read_payload : CommandType → CommandMessage → Reader CommandMessage
unfolding read_dig
read_payload dig m = into read_dig (λ (p : DigPayload). record m { dig_type = p.0; region = p.1 })
read_payload build m = into read_build (λ d. record m { build = d })
read_payload cancel m =
    into read_dig (λ (p : DigPayload). record m { dig_type = p.0; region = p.1 })
read_payload chop m = into read_region (λ d. record m { region = d })
read_payload gather m = into read_region (λ d. record m { region = d })
read_payload zone m = into read_zone (λ d. record m { zone = d })
read_payload blueprint m = into read_blueprint (λ d. record m { blueprint = d })
read_payload unsuspend m = into read_unsuspend (λ d. record m { unsuspend = d })
read_payload work_order m = into read_work_order (λ d. record m { order = d })
read_payload stockpile m = into read_stockpile (λ d. record m { stockpile = d })
read_payload smooth m = into read_smooth (λ d. record m { smooth = d })
read_payload pause m = into read_pause (λ d. record m { pause = d })
read_payload remove_building m = into read_remove_building (λ d. record m { remove = d })
read_payload queue_job m = into read_queue_job (λ d. record m { queue_job = d })
read_payload set_labor m = into read_set_labor (λ d. record m { set_labor = d })
read_payload assign_zone m = into read_assign_zone (λ d. record m { assign_zone = d })
read_payload unassign_zone m = into read_unassign_zone (λ d. record m { unassign_zone = d })
read_payload create_location m = into read_create_location (λ d. record m { create_location = d })
read_payload assign_lodging m = into read_assign_lodging (λ d. record m { assign_lodging = d })
read_payload unassign_lodging m =
    into read_unassign_lodging (λ d. record m { unassign_lodging = d })
read_payload remove_zone m = into read_remove_zone (λ d. record m { remove_zone = d })
read_payload build_farm_plot m = into read_farm_plot (λ d. record m { farm_plot = d })
read_payload set_farm_crop m = into read_set_farm_crop (λ d. record m { set_farm_crop = d })
read_payload designate_burrow m =
    into read_designate_burrow (λ d. record m { designate_burrow = d })
read_payload remove_burrow m = into read_remove_burrow (λ d. record m { remove_burrow = d })
read_payload assign_burrow m = into read_assign_burrow (λ d. record m { assign_burrow = d })
read_payload set_alert m = into read_set_alert (λ d. record m { set_alert = d })
read_payload link_building m = into read_link_building (λ d. record m { link_building = d })
read_payload pull_lever m = into read_pull_lever (λ d. record m { pull_lever = d })
read_payload build_bridge m = into read_build_bridge (λ d. record m { build_bridge = d })
read_payload set_workshop_profile m =
    into read_set_workshop_profile (λ d. record m { set_workshop_profile = d })
read_payload assign_work_detail m =
    into read_assign_work_detail (λ d. record m { assign_work_detail = d })
read_payload set_work_detail_mode m =
    into read_set_work_detail_mode (λ d. record m { set_work_detail_mode = d })
read_payload create_work_detail m =
    into read_create_work_detail (λ d. record m { create_work_detail = d })
read_payload bring_goods_to_depot m =
    into read_bring_goods_to_depot (λ d. record m { bring_goods_to_depot = d })
read_payload appoint_position m =
    into read_appoint_position (λ d. record m { appoint_position = d })
read_payload set_bookkeeper_precision m =
    into read_set_bookkeeper_precision (λ d. record m { set_bookkeeper_precision = d })
read_payload create_squad m = into read_create_squad (λ d. record m { create_squad = d })
read_payload assign_squad m = into read_assign_squad (λ d. record m { assign_squad = d })
read_payload squad_order m = into read_squad_order (λ d. record m { squad_order = d })
read_payload cancel_order m = into read_cancel_order (λ d. record m { cancel_order = d })
read_payload edit_order m = into read_edit_order (λ d. record m { edit_order = d })
read_payload unmark_trade_goods m =
    into read_unmark_trade_goods (λ d. record m { unmark_trade_goods = d })
read_payload set_depot_trade_flags m =
    into read_set_depot_trade_flags (λ d. record m { set_depot_trade_flags = d })
read_payload unknown m = fail unknown_command_type

unfoldable pub read_command : Reader CommandMessage
unfolding read_payload
read_command = do
  command_id ← read_u32
  command_type ← read_u8
  read_payload (command_type_of command_type)
      (record zero_command { command_id = command_id; command_type = command_type })

-- Bytes behind the payload are not looked at.
unfoldable pub deserialize_command : Bytes → Result CommandMessage
unfolding read_command
deserialize_command bs =
    if ltb (length bs) 5
    then err payload_too_short
    else elim (read_command bs) [ ok (m, rest) ↦ ok m | err e ↦ err e ]
