-- ===== src/Commands/Request.antt =====
-- internal/commands/executor.go: the calls of the methods Send… with their arguments.
pub mod Wire
use df_ai.Base.{Bool, false, ℕ, ℤ, ◌==◌}
use df_ai.Protocol.Wire.{Bytes, IsI16, IsI32, IsI64, IsName, IsText, IsU16, IsU32, IsU8}
use df_ai.Protocol.Command.Message.{CommandMessage}
use df_ai.Commands.Send.Areas.{
  send_build_bridge, send_build_farm_plot, send_cancel_command, send_chop_command, send_dig_command,
  send_dig_region, send_gather_command, send_smooth_command, send_stockpile_command,
  send_zone_command,
}
use df_ai.Commands.Send.Build.{
  send_build_command, send_build_command_by_name, send_build_command_by_name_full,
  send_build_command_full, send_build_command_with_material,
  send_build_command_with_material_and_quality,
}
use df_ai.Commands.Send.Burrows.{
  send_assign_burrow, send_designate_burrow, send_remove_burrow, send_set_alert,
}
use df_ai.Commands.Send.Orders.{
  send_bring_goods_to_depot, send_cancel_order, send_edit_order, send_pause_command, send_queue_job,
  send_step_command, send_unmark_trade_goods, send_work_order_command,
}
use df_ai.Commands.Send.People.{
  send_appoint_position, send_assign_squad, send_assign_work_detail, send_create_squad,
  send_create_work_detail, send_set_bookkeeper_precision, send_set_labor, send_set_work_detail_mode,
  send_squad_order_cancel, send_squad_order_defend_burrow, send_squad_order_station,
}
use df_ai.Commands.Send.Sites.{
  send_link_building, send_pull_lever, send_remove_building, send_set_depot_trade_flags,
  send_set_farm_crop, send_set_workshop_profile, send_unsuspend_command,
}
use df_ai.Commands.Send.Zones.{
  send_assign_lodging, send_assign_zone, send_create_location, send_remove_zone,
  send_unassign_lodging, send_unassign_zone,
}

pub data Request : Type 0 where
  dig_request : (dig_type : ℕ) (x1 y1 z x2 y2 : ℤ) → Request
  dig_region_request : (dig_type : ℕ) (x1 y1 z1 x2 y2 z2 : ℤ) → Request
  build_request : (x y z : ℤ) (build_type : ℕ) → Request
  build_with_material_request : (x y z : ℤ) (build_type material : ℕ) → Request
  build_with_material_and_quality_request : (x y z : ℤ) (build_type material quality : ℕ) → Request
  build_full_request : (x y z : ℤ) (build_type material quality orientation : ℕ) → Request
  build_by_name_request : (x y z : ℤ) (name : Bytes) (material quality : ℕ) → Request
  build_by_name_full_request :
      (x y z : ℤ) (name : Bytes) (material quality orientation : ℕ) → Request
  cancel_request : (x1 y1 z x2 y2 : ℤ) → Request
  chop_request : (x1 y1 z x2 y2 : ℤ) → Request
  gather_request : (x1 y1 z x2 y2 : ℤ) → Request
  zone_request : (zone_type : ℕ) (x1 y1 z x2 y2 : ℤ) → Request
  assign_zone_request : (x y z unit_id : ℤ) → Request
  unassign_zone_request : (x y z unit_id : ℤ) → Request
  create_location_request : (x y z : ℤ) (location_type : ℕ) (profession : Bytes) → Request
  assign_lodging_request : (tavern_x tavern_y tavern_z bedroom_x bedroom_y bedroom_z : ℤ) → Request
  unassign_lodging_request : (bedroom_x bedroom_y bedroom_z : ℤ) → Request
  unsuspend_request : (x y z : ℤ) → Request
  remove_building_request : (x y z : ℤ) → Request
  remove_zone_request : (x y z : ℤ) → Request
  work_order_request :
      (order_type quantity : ℕ) (job_type_name material subtype : Bytes) (frequency : ℕ) → Request
  queue_job_request : (x y z : ℤ) (order_type : ℕ) (name material subtype : Bytes) → Request
  set_labor_request : (unit_id : ℤ) (labor_id : ℕ) (enable : Bool) → Request
  stockpile_request : (x1 y1 z x2 y2 : ℤ) (group_mask : ℕ) → Request
  build_farm_plot_request : (x1 y1 z x2 y2 : ℤ) → Request
  set_farm_crop_request : (x y z : ℤ) (season : ℕ) (crop_name : Bytes) → Request
  designate_burrow_request : (name : Bytes) (x1 y1 z1 x2 y2 z2 : ℤ) → Request
  remove_burrow_request : (name : Bytes) → Request
  assign_burrow_request : (name : Bytes) (unit_id : ℤ) (all_citizens assign : Bool) → Request
  set_alert_request : (name : Bytes) (active : Bool) → Request
  link_building_request : (lever_x lever_y lever_z target_x target_y target_z : ℤ) → Request
  pull_lever_request : (x y z : ℤ) → Request
  build_bridge_request : (x1 y1 z x2 y2 : ℤ) (direction : ℕ) → Request
  set_workshop_profile_request :
      (x y z min_skill_level max_skill_level worker_unit_id : ℤ) → Request
  assign_work_detail_request : (detail_index : ℕ) (unit_id : ℤ) (add : Bool) → Request
  set_work_detail_mode_request : (detail_index mode : ℕ) → Request
  create_work_detail_request : (name : Bytes) (mode : ℕ) (labor_ids : Bytes) → Request
  bring_goods_to_depot_request :
      (x y z : ℤ) (item_type_filter material_filter : Bytes) (item_class : ℕ)
      (max_count max_total_value : ℤ)
      → Request
  unmark_trade_goods_request :
      (x y z : ℤ) (item_type_filter material_filter : Bytes) (item_class : ℕ) (max_count : ℤ)
      → Request
  set_depot_trade_flags_request : (x y z : ℤ) (trader_requested anyone_can_trade : Bool) → Request
  appoint_position_request : (unit_id : ℤ) (position_code : Bytes) → Request
  set_bookkeeper_precision_request : (precision : ℕ) → Request
  create_squad_request : (position_code : Bytes) → Request
  assign_squad_request : (squad_id unit_id : ℤ) (add : Bool) → Request
  squad_order_station_request : (squad_id x y z : ℤ) → Request
  squad_order_defend_burrow_request : (squad_id : ℤ) (burrow_name : Bytes) → Request
  squad_order_cancel_request : (squad_id : ℤ) → Request
  cancel_order_request : (order_id : ℤ) → Request
  edit_order_request :
      (order_id : ℤ) (has_amount : Bool) (amount : ℕ) (has_frequency : Bool) (frequency : ℕ)
      → Request
  smooth_request : (smooth_type : ℕ) (x1 y1 z x2 y2 : ℤ) → Request
  pause_request : (paused : Bool) → Request
  step_request : (ticks : ℕ) → Request

-- The message that a call builds, but for its id.
unfoldable pub message_of : Request → ℕ → CommandMessage
unfolding send_appoint_position send_assign_burrow send_assign_lodging send_assign_squad
    send_assign_work_detail send_assign_zone send_bring_goods_to_depot send_build_bridge
    send_build_command send_build_command_by_name send_build_command_by_name_full
    send_build_command_full send_build_command_with_material
    send_build_command_with_material_and_quality send_build_farm_plot send_cancel_command
    send_cancel_order send_chop_command send_create_location send_create_squad
    send_create_work_detail send_designate_burrow send_dig_command send_dig_region send_edit_order
    send_gather_command send_link_building send_pause_command send_pull_lever send_queue_job
    send_remove_building send_remove_burrow send_remove_zone send_set_alert
    send_set_bookkeeper_precision send_set_depot_trade_flags send_set_farm_crop send_set_labor
    send_set_work_detail_mode send_set_workshop_profile send_smooth_command send_squad_order_cancel
    send_squad_order_defend_burrow send_squad_order_station send_step_command send_stockpile_command
    send_unassign_lodging send_unassign_zone send_unmark_trade_goods send_unsuspend_command
    send_work_order_command send_zone_command
message_of (dig_request dig_type x1 y1 z x2 y2) = send_dig_command dig_type x1 y1 z x2 y2
message_of (dig_region_request dig_type x1 y1 z1 x2 y2 z2) =
    send_dig_region dig_type x1 y1 z1 x2 y2 z2
message_of (build_request x y z build_type) = send_build_command x y z build_type
message_of (build_with_material_request x y z build_type material) =
    send_build_command_with_material x y z build_type material
message_of (build_with_material_and_quality_request x y z build_type material quality) =
    send_build_command_with_material_and_quality x y z build_type material quality
message_of (build_full_request x y z build_type material quality orientation) =
    send_build_command_full x y z build_type material quality orientation
message_of (build_by_name_request x y z name material quality) =
    send_build_command_by_name x y z name material quality
message_of (build_by_name_full_request x y z name material quality orientation) =
    send_build_command_by_name_full x y z name material quality orientation
message_of (cancel_request x1 y1 z x2 y2) = send_cancel_command x1 y1 z x2 y2
message_of (chop_request x1 y1 z x2 y2) = send_chop_command x1 y1 z x2 y2
message_of (gather_request x1 y1 z x2 y2) = send_gather_command x1 y1 z x2 y2
message_of (zone_request zone_type x1 y1 z x2 y2) = send_zone_command zone_type x1 y1 z x2 y2
message_of (assign_zone_request x y z unit_id) = send_assign_zone x y z unit_id
message_of (unassign_zone_request x y z unit_id) = send_unassign_zone x y z unit_id
message_of (create_location_request x y z location_type profession) =
    send_create_location x y z location_type profession
message_of (assign_lodging_request tavern_x tavern_y tavern_z bedroom_x bedroom_y bedroom_z) =
    send_assign_lodging tavern_x tavern_y tavern_z bedroom_x bedroom_y bedroom_z
message_of (unassign_lodging_request bedroom_x bedroom_y bedroom_z) =
    send_unassign_lodging bedroom_x bedroom_y bedroom_z
message_of (unsuspend_request x y z) = send_unsuspend_command x y z
message_of (remove_building_request x y z) = send_remove_building x y z
message_of (remove_zone_request x y z) = send_remove_zone x y z
message_of (work_order_request order_type quantity job_type_name material subtype frequency) =
    send_work_order_command order_type quantity job_type_name material subtype frequency
message_of (queue_job_request x y z order_type name material subtype) =
    send_queue_job x y z order_type name material subtype
message_of (set_labor_request unit_id labor_id enable) = send_set_labor unit_id labor_id enable
message_of (stockpile_request x1 y1 z x2 y2 group_mask) =
    send_stockpile_command x1 y1 z x2 y2 group_mask
message_of (build_farm_plot_request x1 y1 z x2 y2) = send_build_farm_plot x1 y1 z x2 y2
message_of (set_farm_crop_request x y z season crop_name) =
    send_set_farm_crop x y z season crop_name
message_of (designate_burrow_request name x1 y1 z1 x2 y2 z2) =
    send_designate_burrow name x1 y1 z1 x2 y2 z2
message_of (remove_burrow_request name) = send_remove_burrow name
message_of (assign_burrow_request name unit_id all_citizens assign) =
    send_assign_burrow name unit_id all_citizens assign
message_of (set_alert_request name active) = send_set_alert name active
message_of (link_building_request lever_x lever_y lever_z target_x target_y target_z) =
    send_link_building lever_x lever_y lever_z target_x target_y target_z
message_of (pull_lever_request x y z) = send_pull_lever x y z
message_of (build_bridge_request x1 y1 z x2 y2 direction) =
    send_build_bridge x1 y1 z x2 y2 direction
message_of (set_workshop_profile_request x y z min_skill_level max_skill_level worker_unit_id) =
    send_set_workshop_profile x y z min_skill_level max_skill_level worker_unit_id
message_of (assign_work_detail_request detail_index unit_id add) =
    send_assign_work_detail detail_index unit_id add
message_of (set_work_detail_mode_request detail_index mode) =
    send_set_work_detail_mode detail_index mode
message_of (create_work_detail_request name mode labor_ids) =
    send_create_work_detail name mode labor_ids
message_of
      (bring_goods_to_depot_request x y z item_type_filter material_filter item_class max_count
        max_total_value) =
    send_bring_goods_to_depot x y z item_type_filter material_filter item_class max_count
      max_total_value
message_of
      (unmark_trade_goods_request x y z item_type_filter material_filter item_class max_count) =
    send_unmark_trade_goods x y z item_type_filter material_filter item_class max_count
message_of (set_depot_trade_flags_request x y z trader_requested anyone_can_trade) =
    send_set_depot_trade_flags x y z trader_requested anyone_can_trade
message_of (appoint_position_request unit_id position_code) =
    send_appoint_position unit_id position_code
message_of (set_bookkeeper_precision_request precision) = send_set_bookkeeper_precision precision
message_of (create_squad_request position_code) = send_create_squad position_code
message_of (assign_squad_request squad_id unit_id add) = send_assign_squad squad_id unit_id add
message_of (squad_order_station_request squad_id x y z) = send_squad_order_station squad_id x y z
message_of (squad_order_defend_burrow_request squad_id burrow_name) =
    send_squad_order_defend_burrow squad_id burrow_name
message_of (squad_order_cancel_request squad_id) = send_squad_order_cancel squad_id
message_of (cancel_order_request order_id) = send_cancel_order order_id
message_of (edit_order_request order_id has_amount amount has_frequency frequency) =
    send_edit_order order_id has_amount amount has_frequency frequency
message_of (smooth_request smooth_type x1 y1 z x2 y2) =
    send_smooth_command smooth_type x1 y1 z x2 y2
message_of (pause_request paused) = send_pause_command paused
message_of (step_request ticks) = send_step_command ticks

-- The calls that fail before there is a message: SendStepCommand of no ticks.
unfoldable pub refused : Request → Bool
refused (step_request ticks) = ticks == 0
refused other = false

-- The arguments are values of their Go types, and the texts are within the limits of the codec.
abbrev pub FitsRequest : Request → Type 0
FitsRequest (dig_request dig_type x1 y1 z x2 y2) =
    IsU8 dig_type × IsI16 x1 × IsI16 y1 × IsI16 z × IsI16 x2 × IsI16 y2
FitsRequest (dig_region_request dig_type x1 y1 z1 x2 y2 z2) =
    IsU8 dig_type × IsI16 x1 × IsI16 y1 × IsI16 z1 × IsI16 x2 × IsI16 y2 × IsI16 z2
FitsRequest (build_request x y z build_type) = IsI16 x × IsI16 y × IsI16 z × IsU8 build_type
FitsRequest (build_with_material_request x y z build_type material) =
    IsI16 x × IsI16 y × IsI16 z × IsU8 build_type × IsU8 material
FitsRequest (build_with_material_and_quality_request x y z build_type material quality) =
    IsI16 x × IsI16 y × IsI16 z × IsU8 build_type × IsU8 material × IsU8 quality
FitsRequest (build_full_request x y z build_type material quality orientation) =
    IsI16 x × IsI16 y × IsI16 z × IsU8 build_type × IsU8 material × IsU8 quality × IsU8 orientation
FitsRequest (build_by_name_request x y z name material quality) =
    IsI16 x × IsI16 y × IsI16 z × IsName name × IsU8 material × IsU8 quality
FitsRequest (build_by_name_full_request x y z name material quality orientation) =
    IsI16 x × IsI16 y × IsI16 z × IsName name × IsU8 material × IsU8 quality × IsU8 orientation
FitsRequest (cancel_request x1 y1 z x2 y2) = IsI16 x1 × IsI16 y1 × IsI16 z × IsI16 x2 × IsI16 y2
FitsRequest (chop_request x1 y1 z x2 y2) = IsI16 x1 × IsI16 y1 × IsI16 z × IsI16 x2 × IsI16 y2
FitsRequest (gather_request x1 y1 z x2 y2) = IsI16 x1 × IsI16 y1 × IsI16 z × IsI16 x2 × IsI16 y2
FitsRequest (zone_request zone_type x1 y1 z x2 y2) =
    IsU8 zone_type × IsI16 x1 × IsI16 y1 × IsI16 z × IsI16 x2 × IsI16 y2
FitsRequest (assign_zone_request x y z unit_id) = IsI16 x × IsI16 y × IsI16 z × IsI32 unit_id
FitsRequest (unassign_zone_request x y z unit_id) = IsI16 x × IsI16 y × IsI16 z × IsI32 unit_id
FitsRequest (create_location_request x y z location_type profession) =
    IsI16 x × IsI16 y × IsI16 z × IsU8 location_type × IsText profession
FitsRequest (assign_lodging_request tavern_x tavern_y tavern_z bedroom_x bedroom_y bedroom_z) =
    IsI16 tavern_x
    × IsI16 tavern_y
    × IsI16 tavern_z
    × IsI16 bedroom_x
    × IsI16 bedroom_y
    × IsI16 bedroom_z
FitsRequest (unassign_lodging_request bedroom_x bedroom_y bedroom_z) =
    IsI16 bedroom_x × IsI16 bedroom_y × IsI16 bedroom_z
FitsRequest (unsuspend_request x y z) = IsI16 x × IsI16 y × IsI16 z
FitsRequest (remove_building_request x y z) = IsI16 x × IsI16 y × IsI16 z
FitsRequest (remove_zone_request x y z) = IsI16 x × IsI16 y × IsI16 z
FitsRequest (work_order_request order_type quantity job_type_name material subtype frequency) =
    IsU8 order_type
    × IsU16 quantity
    × IsName job_type_name
    × IsName material
    × IsName subtype
    × IsU8 frequency
FitsRequest (queue_job_request x y z order_type name material subtype) =
    IsI16 x × IsI16 y × IsI16 z × IsU8 order_type × IsName name × IsName material × IsName subtype
FitsRequest (set_labor_request unit_id labor_id enable) = IsI32 unit_id × IsU8 labor_id
FitsRequest (stockpile_request x1 y1 z x2 y2 group_mask) =
    IsI16 x1 × IsI16 y1 × IsI16 z × IsI16 x2 × IsI16 y2 × IsU32 group_mask
FitsRequest (build_farm_plot_request x1 y1 z x2 y2) =
    IsI16 x1 × IsI16 y1 × IsI16 z × IsI16 x2 × IsI16 y2
FitsRequest (set_farm_crop_request x y z season crop_name) =
    IsI16 x × IsI16 y × IsI16 z × IsU8 season × IsText crop_name
FitsRequest (designate_burrow_request name x1 y1 z1 x2 y2 z2) =
    IsName name × IsI16 x1 × IsI16 y1 × IsI16 z1 × IsI16 x2 × IsI16 y2 × IsI16 z2
FitsRequest (remove_burrow_request name) = IsName name
FitsRequest (assign_burrow_request name unit_id all_citizens assign) = IsName name × IsI32 unit_id
FitsRequest (set_alert_request name active) = IsName name
FitsRequest (link_building_request lever_x lever_y lever_z target_x target_y target_z) =
    IsI16 lever_x × IsI16 lever_y × IsI16 lever_z × IsI16 target_x × IsI16 target_y × IsI16 target_z
FitsRequest (pull_lever_request x y z) = IsI16 x × IsI16 y × IsI16 z
FitsRequest (build_bridge_request x1 y1 z x2 y2 direction) =
    IsI16 x1 × IsI16 y1 × IsI16 z × IsI16 x2 × IsI16 y2 × IsU8 direction
FitsRequest (set_workshop_profile_request x y z min_skill_level max_skill_level worker_unit_id) =
    IsI16 x
    × IsI16 y
    × IsI16 z
    × IsI32 min_skill_level
    × IsI32 max_skill_level
    × IsI32 worker_unit_id
FitsRequest (assign_work_detail_request detail_index unit_id add) =
    IsU16 detail_index × IsI32 unit_id
FitsRequest (set_work_detail_mode_request detail_index mode) = IsU16 detail_index × IsU8 mode
FitsRequest (create_work_detail_request name mode labor_ids) =
    IsName name × IsU8 mode × IsText labor_ids
FitsRequest
      (bring_goods_to_depot_request x y z item_type_filter material_filter item_class max_count
        max_total_value) =
    IsI16 x
    × IsI16 y
    × IsI16 z
    × IsName item_type_filter
    × IsName material_filter
    × IsU8 item_class
    × IsI32 max_count
    × IsI64 max_total_value
FitsRequest
      (unmark_trade_goods_request x y z item_type_filter material_filter item_class max_count) =
    IsI16 x
    × IsI16 y
    × IsI16 z
    × IsName item_type_filter
    × IsName material_filter
    × IsU8 item_class
    × IsI32 max_count
FitsRequest (set_depot_trade_flags_request x y z trader_requested anyone_can_trade) =
    IsI16 x × IsI16 y × IsI16 z
FitsRequest (appoint_position_request unit_id position_code) = IsI32 unit_id × IsName position_code
FitsRequest (set_bookkeeper_precision_request precision) = IsU8 precision
FitsRequest (create_squad_request position_code) = IsName position_code
FitsRequest (assign_squad_request squad_id unit_id add) = IsI32 squad_id × IsI32 unit_id
FitsRequest (squad_order_station_request squad_id x y z) =
    IsI32 squad_id × IsI16 x × IsI16 y × IsI16 z
FitsRequest (squad_order_defend_burrow_request squad_id burrow_name) =
    IsI32 squad_id × IsName burrow_name
FitsRequest (squad_order_cancel_request squad_id) = IsI32 squad_id
FitsRequest (cancel_order_request order_id) = IsI32 order_id
FitsRequest (edit_order_request order_id has_amount amount has_frequency frequency) =
    IsI32 order_id × IsU16 amount × IsU8 frequency
FitsRequest (smooth_request smooth_type x1 y1 z x2 y2) =
    IsU8 smooth_type × IsI16 x1 × IsI16 y1 × IsI16 z × IsI16 x2 × IsI16 y2
FitsRequest (pause_request paused) = Unit
FitsRequest (step_request ticks) = IsU32 ticks
