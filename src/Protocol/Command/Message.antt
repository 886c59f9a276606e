-- ===== src/Protocol/Command/Message.antt =====
-- The CommandMessage of internal/protocol/message.go: the payload fields of all command types side
-- by side, of which a message uses those of its type. The four blueprint fields are one record.
use df_ai.Base.{ℕ}
use df_ai.Protocol.Command.Areas.{
  BuildBridgeDesignation, FarmPlotDesignation, Region, SmoothDesignation, StockpileDesignation,
  ZoneDesignation, zero_build_bridge, zero_farm_plot, zero_region, zero_smooth, zero_stockpile,
  zero_zone,
}
use df_ai.Protocol.Command.Zones.{
  AssignLodgingDesignation, AssignZoneDesignation, CreateLocationDesignation, RemoveZoneDesignation,
  UnassignLodgingDesignation, UnassignZoneDesignation, zero_assign_lodging, zero_assign_zone,
  zero_create_location, zero_remove_zone, zero_unassign_lodging, zero_unassign_zone,
}
use df_ai.Protocol.Command.Sites.{
  LinkBuildingDesignation, PullLeverDesignation, RemoveBuildingDesignation,
  SetDepotTradeFlagsDesignation, SetFarmCropDesignation, SetWorkshopProfileDesignation,
  UnsuspendDesignation, zero_link_building, zero_pull_lever, zero_remove_building,
  zero_set_depot_trade_flags, zero_set_farm_crop, zero_set_workshop_profile, zero_unsuspend,
}
use df_ai.Protocol.Command.People.{
  AppointPositionDesignation, AssignSquadDesignation, AssignWorkDetailDesignation,
  CreateSquadDesignation, CreateWorkDetailDesignation, SetBookkeeperPrecisionDesignation,
  SetLaborDesignation, SetWorkDetailModeDesignation, SquadOrderDesignation, zero_appoint_position,
  zero_assign_squad, zero_assign_work_detail, zero_create_squad, zero_create_work_detail,
  zero_set_bookkeeper_precision, zero_set_labor, zero_set_work_detail_mode, zero_squad_order,
}
use df_ai.Protocol.Command.Burrows.{
  AssignBurrowDesignation, BlueprintPlacement, DesignateBurrowDesignation, RemoveBurrowDesignation,
  SetAlertDesignation, zero_assign_burrow, zero_blueprint, zero_designate_burrow,
  zero_remove_burrow, zero_set_alert,
}
use df_ai.Protocol.Command.Orders.{
  BringGoodsToDepotDesignation, CancelOrderDesignation, EditOrderDesignation, PauseControl,
  UnmarkTradeGoodsDesignation, zero_bring_goods_to_depot, zero_cancel_order, zero_edit_order,
  zero_pause, zero_unmark_trade_goods,
}
use df_ai.Protocol.Command.Jobs.{
  BuildDesignation, QueueJobDesignation, WorkOrderDesignation, zero_build, zero_queue_job,
  zero_work_order,
}

pub record CommandMessage : Type 0 where
  pub command_id : ℕ
  pub command_type : ℕ
  pub dig_type : ℕ
  pub region : Region
  pub build : BuildDesignation
  pub zone : ZoneDesignation
  pub unsuspend : UnsuspendDesignation
  pub order : WorkOrderDesignation
  pub stockpile : StockpileDesignation
  pub smooth : SmoothDesignation
  pub pause : PauseControl
  pub remove : RemoveBuildingDesignation
  pub queue_job : QueueJobDesignation
  pub set_labor : SetLaborDesignation
  pub assign_zone : AssignZoneDesignation
  pub unassign_zone : UnassignZoneDesignation
  pub remove_zone : RemoveZoneDesignation
  pub farm_plot : FarmPlotDesignation
  pub set_farm_crop : SetFarmCropDesignation
  pub designate_burrow : DesignateBurrowDesignation
  pub remove_burrow : RemoveBurrowDesignation
  pub assign_burrow : AssignBurrowDesignation
  pub set_alert : SetAlertDesignation
  pub link_building : LinkBuildingDesignation
  pub pull_lever : PullLeverDesignation
  pub build_bridge : BuildBridgeDesignation
  pub set_workshop_profile : SetWorkshopProfileDesignation
  pub assign_work_detail : AssignWorkDetailDesignation
  pub set_work_detail_mode : SetWorkDetailModeDesignation
  pub create_work_detail : CreateWorkDetailDesignation
  pub bring_goods_to_depot : BringGoodsToDepotDesignation
  pub appoint_position : AppointPositionDesignation
  pub set_bookkeeper_precision : SetBookkeeperPrecisionDesignation
  pub create_squad : CreateSquadDesignation
  pub assign_squad : AssignSquadDesignation
  pub squad_order : SquadOrderDesignation
  pub cancel_order : CancelOrderDesignation
  pub edit_order : EditOrderDesignation
  pub unmark_trade_goods : UnmarkTradeGoodsDesignation
  pub set_depot_trade_flags : SetDepotTradeFlagsDesignation
  pub create_location : CreateLocationDesignation
  pub assign_lodging : AssignLodgingDesignation
  pub unassign_lodging : UnassignLodgingDesignation
  pub blueprint : BlueprintPlacement

-- `&CommandMessage{}`
abbrev pub zero_command : CommandMessage
zero_command = record {
  command_id = 0;
  command_type = 0;
  dig_type = 0;
  region = zero_region;
  build = zero_build;
  zone = zero_zone;
  unsuspend = zero_unsuspend;
  order = zero_work_order;
  stockpile = zero_stockpile;
  smooth = zero_smooth;
  pause = zero_pause;
  remove = zero_remove_building;
  queue_job = zero_queue_job;
  set_labor = zero_set_labor;
  assign_zone = zero_assign_zone;
  unassign_zone = zero_unassign_zone;
  remove_zone = zero_remove_zone;
  farm_plot = zero_farm_plot;
  set_farm_crop = zero_set_farm_crop;
  designate_burrow = zero_designate_burrow;
  remove_burrow = zero_remove_burrow;
  assign_burrow = zero_assign_burrow;
  set_alert = zero_set_alert;
  link_building = zero_link_building;
  pull_lever = zero_pull_lever;
  build_bridge = zero_build_bridge;
  set_workshop_profile = zero_set_workshop_profile;
  assign_work_detail = zero_assign_work_detail;
  set_work_detail_mode = zero_set_work_detail_mode;
  create_work_detail = zero_create_work_detail;
  bring_goods_to_depot = zero_bring_goods_to_depot;
  appoint_position = zero_appoint_position;
  set_bookkeeper_precision = zero_set_bookkeeper_precision;
  create_squad = zero_create_squad;
  assign_squad = zero_assign_squad;
  squad_order = zero_squad_order;
  cancel_order = zero_cancel_order;
  edit_order = zero_edit_order;
  unmark_trade_goods = zero_unmark_trade_goods;
  set_depot_trade_flags = zero_set_depot_trade_flags;
  create_location = zero_create_location;
  assign_lodging = zero_assign_lodging;
  unassign_lodging = zero_unassign_lodging;
  blueprint = zero_blueprint;
}
