-- ===== src/Protocol/Command/Serialize.antt =====
-- serializeCommand of internal/protocol/codec.go.
use df_ai.Protocol.Wire.{Bytes, put_u32, put_u8}
use df_ai.Base.{Result, [], ok, ◌++◌, ◌>>=◌}
use df_ai.Protocol.Command.Types.{
  CommandType, appoint_position, assign_burrow, assign_lodging, assign_squad, assign_work_detail,
  assign_zone, blueprint, bring_goods_to_depot, build, build_bridge, build_farm_plot, cancel,
  cancel_order, chop, command_type_of, create_location, create_squad, create_work_detail,
  designate_burrow, dig, edit_order, gather, link_building, pause, pull_lever, queue_job,
  remove_building, remove_burrow, remove_zone, set_alert, set_bookkeeper_precision,
  set_depot_trade_flags, set_farm_crop, set_labor, set_work_detail_mode, set_workshop_profile,
  smooth, squad_order, stockpile, unassign_lodging, unassign_zone, unknown, unmark_trade_goods,
  unsuspend, work_order, zone,
}
use df_ai.Protocol.Command.Message.{CommandMessage}
use df_ai.Protocol.Command.Areas.{
  write_build_bridge, write_farm_plot, write_region, write_smooth, write_stockpile, write_zone,
}
use df_ai.Protocol.Command.Zones.{
  write_assign_lodging, write_assign_zone, write_create_location, write_remove_zone,
  write_unassign_lodging, write_unassign_zone,
}
use df_ai.Protocol.Command.Sites.{
  write_link_building, write_pull_lever, write_remove_building, write_set_depot_trade_flags,
  write_set_farm_crop, write_set_workshop_profile, write_unsuspend,
}
use df_ai.Protocol.Command.People.{
  write_appoint_position, write_assign_squad, write_assign_work_detail, write_create_squad,
  write_create_work_detail, write_set_bookkeeper_precision, write_set_labor,
  write_set_work_detail_mode, write_squad_order,
}
use df_ai.Protocol.Command.Burrows.{
  write_assign_burrow, write_blueprint, write_designate_burrow, write_remove_burrow,
  write_set_alert,
}
use df_ai.Protocol.Command.Orders.{
  write_bring_goods_to_depot, write_cancel_order, write_edit_order, write_pause,
  write_unmark_trade_goods,
}
use df_ai.Protocol.Command.Jobs.{write_build, write_queue_job, write_work_order}

unfoldable pub write_dig : CommandMessage → Bytes
write_dig m = put_u8 m.dig_type ++ write_region m.region

-- The switch. It has no default: a message of an unknown type gets no payload.
unfoldable pub write_payload : CommandType → CommandMessage → Result Bytes
unfolding write_dig
write_payload dig m = ok (write_dig m)
write_payload build m = write_build m.build
write_payload cancel m = ok (write_dig m)
write_payload chop m = ok (write_region m.region)
write_payload gather m = ok (write_region m.region)
write_payload zone m = ok (write_zone m.zone)
write_payload blueprint m = write_blueprint m.blueprint
write_payload unsuspend m = ok (write_unsuspend m.unsuspend)
write_payload work_order m = write_work_order m.order
write_payload stockpile m = ok (write_stockpile m.stockpile)
write_payload smooth m = ok (write_smooth m.smooth)
write_payload pause m = ok (write_pause m.pause)
write_payload remove_building m = ok (write_remove_building m.remove)
write_payload queue_job m = write_queue_job m.queue_job
write_payload set_labor m = ok (write_set_labor m.set_labor)
write_payload assign_zone m = ok (write_assign_zone m.assign_zone)
write_payload unassign_zone m = ok (write_unassign_zone m.unassign_zone)
write_payload create_location m = ok (write_create_location m.create_location)
write_payload assign_lodging m = ok (write_assign_lodging m.assign_lodging)
write_payload unassign_lodging m = ok (write_unassign_lodging m.unassign_lodging)
write_payload remove_zone m = ok (write_remove_zone m.remove_zone)
write_payload build_farm_plot m = ok (write_farm_plot m.farm_plot)
write_payload set_farm_crop m = write_set_farm_crop m.set_farm_crop
write_payload designate_burrow m = write_designate_burrow m.designate_burrow
write_payload remove_burrow m = write_remove_burrow m.remove_burrow
write_payload assign_burrow m = write_assign_burrow m.assign_burrow
write_payload set_alert m = write_set_alert m.set_alert
write_payload link_building m = ok (write_link_building m.link_building)
write_payload pull_lever m = ok (write_pull_lever m.pull_lever)
write_payload build_bridge m = ok (write_build_bridge m.build_bridge)
write_payload set_workshop_profile m = ok (write_set_workshop_profile m.set_workshop_profile)
write_payload assign_work_detail m = ok (write_assign_work_detail m.assign_work_detail)
write_payload set_work_detail_mode m = ok (write_set_work_detail_mode m.set_work_detail_mode)
write_payload create_work_detail m = write_create_work_detail m.create_work_detail
write_payload bring_goods_to_depot m = write_bring_goods_to_depot m.bring_goods_to_depot
write_payload appoint_position m = write_appoint_position m.appoint_position
write_payload set_bookkeeper_precision m =
    ok (write_set_bookkeeper_precision m.set_bookkeeper_precision)
write_payload create_squad m = write_create_squad m.create_squad
write_payload assign_squad m = ok (write_assign_squad m.assign_squad)
write_payload squad_order m = write_squad_order m.squad_order
write_payload cancel_order m = ok (write_cancel_order m.cancel_order)
write_payload edit_order m = ok (write_edit_order m.edit_order)
write_payload unmark_trade_goods m = write_unmark_trade_goods m.unmark_trade_goods
write_payload set_depot_trade_flags m = ok (write_set_depot_trade_flags m.set_depot_trade_flags)
write_payload unknown m = ok []

unfoldable pub serialize_command : CommandMessage → Result Bytes
serialize_command m = do
  payload ← write_payload (command_type_of m.command_type) m
  ok (put_u32 m.command_id ++ (put_u8 m.command_type ++ payload))
