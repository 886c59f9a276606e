-- ===== src/Protocol/Command/Carry.antt =====
-- What of a command message its type puts on the wire, by serializeCommand of
-- internal/protocol/codec.go.
use df_ai.Protocol.Wire.{IsU8}
use df_ai.Protocol.Command.Types.{
  CommandType, appoint_position, assign_burrow, assign_lodging, assign_squad, assign_work_detail,
  assign_zone, blueprint, bring_goods_to_depot, build, build_bridge, build_farm_plot, cancel,
  cancel_order, chop, create_location, create_squad, create_work_detail, designate_burrow, dig,
  edit_order, gather, link_building, pause, pull_lever, queue_job, remove_building, remove_burrow,
  remove_zone, set_alert, set_bookkeeper_precision, set_depot_trade_flags, set_farm_crop, set_labor,
  set_work_detail_mode, set_workshop_profile, smooth, squad_order, stockpile, unassign_lodging,
  unassign_zone, unknown, unmark_trade_goods, unsuspend, work_order, zone,
}
use df_ai.Protocol.Command.Message.{CommandMessage}
use df_ai.Protocol.Command.Areas.{
  FitsBuildBridgeDesignation, FitsFarmPlotDesignation, FitsRegion, FitsSmoothDesignation,
  FitsStockpileDesignation, FitsZoneDesignation,
}
use df_ai.Protocol.Command.Zones.{
  FitsAssignLodgingDesignation, FitsAssignZoneDesignation, FitsCreateLocationDesignation,
  FitsRemoveZoneDesignation, FitsUnassignLodgingDesignation, FitsUnassignZoneDesignation,
}
use df_ai.Protocol.Command.Sites.{
  FitsLinkBuildingDesignation, FitsPullLeverDesignation, FitsRemoveBuildingDesignation,
  FitsSetDepotTradeFlagsDesignation, FitsSetFarmCropDesignation, FitsSetWorkshopProfileDesignation,
  FitsUnsuspendDesignation,
}
use df_ai.Protocol.Command.People.{
  FitsAppointPositionDesignation, FitsAssignSquadDesignation, FitsAssignWorkDetailDesignation,
  FitsCreateSquadDesignation, FitsCreateWorkDetailDesignation,
  FitsSetBookkeeperPrecisionDesignation, FitsSetLaborDesignation, FitsSetWorkDetailModeDesignation,
  FitsSquadOrderDesignation,
}
use df_ai.Protocol.Command.Burrows.{
  FitsAssignBurrowDesignation, FitsBlueprintPlacement, FitsDesignateBurrowDesignation,
  FitsRemoveBurrowDesignation, FitsSetAlertDesignation,
}
use df_ai.Protocol.Command.Orders.{
  FitsBringGoodsToDepotDesignation, FitsCancelOrderDesignation, FitsEditOrderDesignation,
  FitsPauseControl, FitsUnmarkTradeGoodsDesignation,
}
use df_ai.Protocol.Command.Jobs.{
  FitsBuildDesignation, FitsQueueJobDesignation, FitsWorkOrderDesignation,
}
use df_ai.Protocol.Command.Jobs.RoundTrip.{sent_build, sent_queue_job, sent_work_order}

-- `m` with the payload of `from`, as a message of the type `t` carries it.
abbrev pub carry : CommandType → (from m : CommandMessage) → CommandMessage
carry dig from m = record m { dig_type = from.dig_type; region = from.region }
carry build from m = record m { build = sent_build from.build }
carry cancel from m = record m { dig_type = from.dig_type; region = from.region }
carry chop from m = record m { region = from.region }
carry gather from m = record m { region = from.region }
carry zone from m = record m { zone = from.zone }
carry blueprint from m = record m { blueprint = from.blueprint }
carry unsuspend from m = record m { unsuspend = from.unsuspend }
carry work_order from m = record m { order = sent_work_order from.order }
carry stockpile from m = record m { stockpile = from.stockpile }
carry smooth from m = record m { smooth = from.smooth }
carry pause from m = record m { pause = from.pause }
carry remove_building from m = record m { remove = from.remove }
carry queue_job from m = record m { queue_job = sent_queue_job from.queue_job }
carry set_labor from m = record m { set_labor = from.set_labor }
carry assign_zone from m = record m { assign_zone = from.assign_zone }
carry unassign_zone from m = record m { unassign_zone = from.unassign_zone }
carry create_location from m = record m { create_location = from.create_location }
carry assign_lodging from m = record m { assign_lodging = from.assign_lodging }
carry unassign_lodging from m = record m { unassign_lodging = from.unassign_lodging }
carry remove_zone from m = record m { remove_zone = from.remove_zone }
carry build_farm_plot from m = record m { farm_plot = from.farm_plot }
carry set_farm_crop from m = record m { set_farm_crop = from.set_farm_crop }
carry designate_burrow from m = record m { designate_burrow = from.designate_burrow }
carry remove_burrow from m = record m { remove_burrow = from.remove_burrow }
carry assign_burrow from m = record m { assign_burrow = from.assign_burrow }
carry set_alert from m = record m { set_alert = from.set_alert }
carry link_building from m = record m { link_building = from.link_building }
carry pull_lever from m = record m { pull_lever = from.pull_lever }
carry build_bridge from m = record m { build_bridge = from.build_bridge }
carry set_workshop_profile from m = record m { set_workshop_profile = from.set_workshop_profile }
carry assign_work_detail from m = record m { assign_work_detail = from.assign_work_detail }
carry set_work_detail_mode from m = record m { set_work_detail_mode = from.set_work_detail_mode }
carry create_work_detail from m = record m { create_work_detail = from.create_work_detail }
carry bring_goods_to_depot from m = record m { bring_goods_to_depot = from.bring_goods_to_depot }
carry appoint_position from m = record m { appoint_position = from.appoint_position }
carry set_bookkeeper_precision from m = record m {
  set_bookkeeper_precision = from.set_bookkeeper_precision;
}
carry create_squad from m = record m { create_squad = from.create_squad }
carry assign_squad from m = record m { assign_squad = from.assign_squad }
carry squad_order from m = record m { squad_order = from.squad_order }
carry cancel_order from m = record m { cancel_order = from.cancel_order }
carry edit_order from m = record m { edit_order = from.edit_order }
carry unmark_trade_goods from m = record m { unmark_trade_goods = from.unmark_trade_goods }
carry set_depot_trade_flags from m = record m { set_depot_trade_flags = from.set_depot_trade_flags }
carry unknown from m = m

-- The values of the payload are values of their Go types, and its names are within the limits.
abbrev pub FitsPayload : CommandType → CommandMessage → Type 0
FitsPayload dig m = IsU8 m.dig_type × FitsRegion m.region
FitsPayload build m = FitsBuildDesignation m.build
FitsPayload cancel m = IsU8 m.dig_type × FitsRegion m.region
FitsPayload chop m = FitsRegion m.region
FitsPayload gather m = FitsRegion m.region
FitsPayload zone m = FitsZoneDesignation m.zone
FitsPayload blueprint m = FitsBlueprintPlacement m.blueprint
FitsPayload unsuspend m = FitsUnsuspendDesignation m.unsuspend
FitsPayload work_order m = FitsWorkOrderDesignation m.order
FitsPayload stockpile m = FitsStockpileDesignation m.stockpile
FitsPayload smooth m = FitsSmoothDesignation m.smooth
FitsPayload pause m = FitsPauseControl m.pause
FitsPayload remove_building m = FitsRemoveBuildingDesignation m.remove
FitsPayload queue_job m = FitsQueueJobDesignation m.queue_job
FitsPayload set_labor m = FitsSetLaborDesignation m.set_labor
FitsPayload assign_zone m = FitsAssignZoneDesignation m.assign_zone
FitsPayload unassign_zone m = FitsUnassignZoneDesignation m.unassign_zone
FitsPayload create_location m = FitsCreateLocationDesignation m.create_location
FitsPayload assign_lodging m = FitsAssignLodgingDesignation m.assign_lodging
FitsPayload unassign_lodging m = FitsUnassignLodgingDesignation m.unassign_lodging
FitsPayload remove_zone m = FitsRemoveZoneDesignation m.remove_zone
FitsPayload build_farm_plot m = FitsFarmPlotDesignation m.farm_plot
FitsPayload set_farm_crop m = FitsSetFarmCropDesignation m.set_farm_crop
FitsPayload designate_burrow m = FitsDesignateBurrowDesignation m.designate_burrow
FitsPayload remove_burrow m = FitsRemoveBurrowDesignation m.remove_burrow
FitsPayload assign_burrow m = FitsAssignBurrowDesignation m.assign_burrow
FitsPayload set_alert m = FitsSetAlertDesignation m.set_alert
FitsPayload link_building m = FitsLinkBuildingDesignation m.link_building
FitsPayload pull_lever m = FitsPullLeverDesignation m.pull_lever
FitsPayload build_bridge m = FitsBuildBridgeDesignation m.build_bridge
FitsPayload set_workshop_profile m = FitsSetWorkshopProfileDesignation m.set_workshop_profile
FitsPayload assign_work_detail m = FitsAssignWorkDetailDesignation m.assign_work_detail
FitsPayload set_work_detail_mode m = FitsSetWorkDetailModeDesignation m.set_work_detail_mode
FitsPayload create_work_detail m = FitsCreateWorkDetailDesignation m.create_work_detail
FitsPayload bring_goods_to_depot m = FitsBringGoodsToDepotDesignation m.bring_goods_to_depot
FitsPayload appoint_position m = FitsAppointPositionDesignation m.appoint_position
FitsPayload set_bookkeeper_precision m =
    FitsSetBookkeeperPrecisionDesignation m.set_bookkeeper_precision
FitsPayload create_squad m = FitsCreateSquadDesignation m.create_squad
FitsPayload assign_squad m = FitsAssignSquadDesignation m.assign_squad
FitsPayload squad_order m = FitsSquadOrderDesignation m.squad_order
FitsPayload cancel_order m = FitsCancelOrderDesignation m.cancel_order
FitsPayload edit_order m = FitsEditOrderDesignation m.edit_order
FitsPayload unmark_trade_goods m = FitsUnmarkTradeGoodsDesignation m.unmark_trade_goods
FitsPayload set_depot_trade_flags m = FitsSetDepotTradeFlagsDesignation m.set_depot_trade_flags
FitsPayload unknown m = ⊥
