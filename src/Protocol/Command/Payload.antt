-- ===== src/Protocol/Command/Payload.antt =====
-- The cases of serializeCommand and deserializeCommand of internal/protocol/codec.go, by command
-- type.
use df_ai.Protocol.Wire.{Bytes, IsU8, Reader, pure}
use df_ai.Protocol.Wire.Reads.{bind_ok, reads}
use df_ai.Base.{Result, err, ok, ◌++◌, ◌>>=◌, ◌≡◌}
use df_ai.Protocol.Command.Types.{
  CommandType, appoint_position, assign_burrow, assign_lodging, assign_squad, assign_work_detail,
  assign_zone, blueprint, bring_goods_to_depot, build, build_bridge, build_farm_plot, cancel,
  cancel_order, chop, create_location, create_squad, create_work_detail, designate_burrow, dig,
  edit_order, gather, link_building, pause, pull_lever, queue_job, remove_building, remove_burrow,
  remove_zone, set_alert, set_bookkeeper_precision, set_depot_trade_flags, set_farm_crop, set_labor,
  set_work_detail_mode, set_workshop_profile, smooth, squad_order, stockpile, unassign_lodging,
  unassign_zone, unknown, unmark_trade_goods, unsuspend, work_order, zone,
}
use df_ai.Protocol.Command.Message.{CommandMessage}
use df_ai.Protocol.Command.Carry.{FitsPayload, carry}
use df_ai.Protocol.Command.Serialize.{write_dig, write_payload}
use df_ai.Protocol.Command.Deserialize.{into, read_dig, read_payload}
use df_ai.Protocol.Command.Areas.{
  FitsRegion, read_build_bridge, read_farm_plot, read_region, read_smooth, read_stockpile,
  read_zone, write_build_bridge, write_farm_plot, write_region, write_smooth, write_stockpile,
  write_zone,
}
use df_ai.Protocol.Command.Areas.RoundTrip.{
  read_build_bridge-write_build_bridge, read_farm_plot-write_farm_plot, read_region-write_region,
  read_smooth-write_smooth, read_stockpile-write_stockpile, read_zone-write_zone,
}
use df_ai.Protocol.Command.Zones.{
  read_assign_lodging, read_assign_zone, read_create_location, read_remove_zone,
  read_unassign_lodging, read_unassign_zone, write_assign_lodging, write_assign_zone,
  write_create_location, write_remove_zone, write_unassign_lodging, write_unassign_zone,
}
use df_ai.Protocol.Command.Zones.RoundTrip.{
  read_assign_lodging-write_assign_lodging, read_assign_zone-write_assign_zone,
  read_create_location-write_create_location, read_remove_zone-write_remove_zone,
  read_unassign_lodging-write_unassign_lodging, read_unassign_zone-write_unassign_zone,
}
use df_ai.Protocol.Command.Sites.{
  read_link_building, read_pull_lever, read_remove_building, read_set_depot_trade_flags,
  read_set_farm_crop, read_set_workshop_profile, read_unsuspend, write_link_building,
  write_pull_lever, write_remove_building, write_set_depot_trade_flags, write_set_farm_crop,
  write_set_workshop_profile, write_unsuspend,
}
use df_ai.Protocol.Command.Sites.RoundTrip.{
  read_link_building-write_link_building, read_pull_lever-write_pull_lever,
  read_remove_building-write_remove_building,
  read_set_depot_trade_flags-write_set_depot_trade_flags, read_set_farm_crop-write_set_farm_crop,
  read_set_workshop_profile-write_set_workshop_profile, read_unsuspend-write_unsuspend,
}
use df_ai.Protocol.Command.People.{
  read_appoint_position, read_assign_squad, read_assign_work_detail, read_create_squad,
  read_create_work_detail, read_set_bookkeeper_precision, read_set_labor, read_set_work_detail_mode,
  read_squad_order, write_appoint_position, write_assign_squad, write_assign_work_detail,
  write_create_squad, write_create_work_detail, write_set_bookkeeper_precision, write_set_labor,
  write_set_work_detail_mode, write_squad_order,
}
use df_ai.Protocol.Command.People.RoundTrip.{
  read_appoint_position-write_appoint_position, read_assign_squad-write_assign_squad,
  read_assign_work_detail-write_assign_work_detail, read_create_squad-write_create_squad,
  read_create_work_detail-write_create_work_detail,
  read_set_bookkeeper_precision-write_set_bookkeeper_precision, read_set_labor-write_set_labor,
  read_set_work_detail_mode-write_set_work_detail_mode, read_squad_order-write_squad_order,
}
use df_ai.Protocol.Command.Burrows.{
  read_assign_burrow, read_blueprint, read_designate_burrow, read_remove_burrow, read_set_alert,
  write_assign_burrow, write_blueprint, write_designate_burrow, write_remove_burrow,
  write_set_alert,
}
use df_ai.Protocol.Command.Burrows.RoundTrip.{
  read_assign_burrow-write_assign_burrow, read_blueprint-write_blueprint,
  read_designate_burrow-write_designate_burrow, read_remove_burrow-write_remove_burrow,
  read_set_alert-write_set_alert,
}
use df_ai.Protocol.Command.Orders.{
  read_bring_goods_to_depot, read_cancel_order, read_edit_order, read_pause,
  read_unmark_trade_goods, write_bring_goods_to_depot, write_cancel_order, write_edit_order,
  write_pause, write_unmark_trade_goods,
}
use df_ai.Protocol.Command.Orders.RoundTrip.{
  read_bring_goods_to_depot-write_bring_goods_to_depot, read_cancel_order-write_cancel_order,
  read_edit_order-write_edit_order, read_pause-write_pause,
  read_unmark_trade_goods-write_unmark_trade_goods,
}
use df_ai.Protocol.Command.Jobs.{
  read_build, read_queue_job, read_work_order, write_build, write_queue_job, write_work_order,
}
use df_ai.Protocol.Command.Jobs.RoundTrip.{
  read_build-write_build, read_queue_job-write_queue_job, read_work_order-write_work_order,
}

-- Reading into a field, after the round trip of the designation.
into_lem :
    {A : Type 0} (sent : Result Bytes) (read : Reader A) (set : A → CommandMessage) (rest : Bytes)
    {d : A}
    → (sent >>= λ bs. read (bs ++ rest)) ≡ ok (d, rest)
    → (sent >>= λ bs. into read set (bs ++ rest)) ≡ ok (set d, rest)
into_lem (ok bs) read set rest e = bind_ok read (λ d. pure (set d)) (bs ++ rest) e
into_lem (err x) read set rest e = cc

dig_lem :
    (m : CommandMessage) (rest : Bytes)
    → IsU8 m.dig_type × FitsRegion m.region
    → read_dig (write_dig m ++ rest) ≡ ok ((m.dig_type, m.region), rest)
unfolding write_dig read_dig
dig_lem m rest h = simp (reads, read_region-write_region, h.0, h.1)

pub payload_lem :
    (t : CommandType) (m z : CommandMessage) (rest : Bytes)
    → FitsPayload t m
    → (write_payload t m >>= λ bs. read_payload t z (bs ++ rest)) ≡ ok (carry t m z, rest)
unfolding write_payload read_payload
payload_lem dig m z rest h = into_lem (ok (write_dig m)) read_dig _ rest (dig_lem m rest h)
payload_lem build m z rest h =
    into_lem (write_build m.build) read_build _ rest (read_build-write_build m.build rest h)
payload_lem cancel m z rest h = into_lem (ok (write_dig m)) read_dig _ rest (dig_lem m rest h)
payload_lem chop m z rest h =
    into_lem (ok (write_region m.region)) read_region _ rest
      (read_region-write_region m.region rest h)
payload_lem gather m z rest h =
    into_lem (ok (write_region m.region)) read_region _ rest
      (read_region-write_region m.region rest h)
payload_lem zone m z rest h =
    into_lem (ok (write_zone m.zone)) read_zone _ rest (read_zone-write_zone m.zone rest h)
payload_lem blueprint m z rest h =
    into_lem (write_blueprint m.blueprint) read_blueprint _ rest
      (read_blueprint-write_blueprint m.blueprint rest h)
payload_lem unsuspend m z rest h =
    into_lem (ok (write_unsuspend m.unsuspend)) read_unsuspend _ rest
      (read_unsuspend-write_unsuspend m.unsuspend rest h)
payload_lem work_order m z rest h =
    into_lem (write_work_order m.order) read_work_order _ rest
      (read_work_order-write_work_order m.order rest h)
payload_lem stockpile m z rest h =
    into_lem (ok (write_stockpile m.stockpile)) read_stockpile _ rest
      (read_stockpile-write_stockpile m.stockpile rest h)
payload_lem smooth m z rest h =
    into_lem (ok (write_smooth m.smooth)) read_smooth _ rest
      (read_smooth-write_smooth m.smooth rest h)
payload_lem pause m z rest h =
    into_lem (ok (write_pause m.pause)) read_pause _ rest (read_pause-write_pause m.pause rest h)
payload_lem remove_building m z rest h =
    into_lem (ok (write_remove_building m.remove)) read_remove_building _ rest
      (read_remove_building-write_remove_building m.remove rest h)
payload_lem queue_job m z rest h =
    into_lem (write_queue_job m.queue_job) read_queue_job _ rest
      (read_queue_job-write_queue_job m.queue_job rest h)
payload_lem set_labor m z rest h =
    into_lem (ok (write_set_labor m.set_labor)) read_set_labor _ rest
      (read_set_labor-write_set_labor m.set_labor rest h)
payload_lem assign_zone m z rest h =
    into_lem (ok (write_assign_zone m.assign_zone)) read_assign_zone _ rest
      (read_assign_zone-write_assign_zone m.assign_zone rest h)
payload_lem unassign_zone m z rest h =
    into_lem (ok (write_unassign_zone m.unassign_zone)) read_unassign_zone _ rest
      (read_unassign_zone-write_unassign_zone m.unassign_zone rest h)
payload_lem create_location m z rest h =
    into_lem (ok (write_create_location m.create_location)) read_create_location _ rest
      (read_create_location-write_create_location m.create_location rest h)
payload_lem assign_lodging m z rest h =
    into_lem (ok (write_assign_lodging m.assign_lodging)) read_assign_lodging _ rest
      (read_assign_lodging-write_assign_lodging m.assign_lodging rest h)
payload_lem unassign_lodging m z rest h =
    into_lem (ok (write_unassign_lodging m.unassign_lodging)) read_unassign_lodging _ rest
      (read_unassign_lodging-write_unassign_lodging m.unassign_lodging rest h)
payload_lem remove_zone m z rest h =
    into_lem (ok (write_remove_zone m.remove_zone)) read_remove_zone _ rest
      (read_remove_zone-write_remove_zone m.remove_zone rest h)
payload_lem build_farm_plot m z rest h =
    into_lem (ok (write_farm_plot m.farm_plot)) read_farm_plot _ rest
      (read_farm_plot-write_farm_plot m.farm_plot rest h)
payload_lem set_farm_crop m z rest h =
    into_lem (write_set_farm_crop m.set_farm_crop) read_set_farm_crop _ rest
      (read_set_farm_crop-write_set_farm_crop m.set_farm_crop rest h)
payload_lem designate_burrow m z rest h =
    into_lem (write_designate_burrow m.designate_burrow) read_designate_burrow _ rest
      (read_designate_burrow-write_designate_burrow m.designate_burrow rest h)
payload_lem remove_burrow m z rest h =
    into_lem (write_remove_burrow m.remove_burrow) read_remove_burrow _ rest
      (read_remove_burrow-write_remove_burrow m.remove_burrow rest h)
payload_lem assign_burrow m z rest h =
    into_lem (write_assign_burrow m.assign_burrow) read_assign_burrow _ rest
      (read_assign_burrow-write_assign_burrow m.assign_burrow rest h)
payload_lem set_alert m z rest h =
    into_lem (write_set_alert m.set_alert) read_set_alert _ rest
      (read_set_alert-write_set_alert m.set_alert rest h)
payload_lem link_building m z rest h =
    into_lem (ok (write_link_building m.link_building)) read_link_building _ rest
      (read_link_building-write_link_building m.link_building rest h)
payload_lem pull_lever m z rest h =
    into_lem (ok (write_pull_lever m.pull_lever)) read_pull_lever _ rest
      (read_pull_lever-write_pull_lever m.pull_lever rest h)
payload_lem build_bridge m z rest h =
    into_lem (ok (write_build_bridge m.build_bridge)) read_build_bridge _ rest
      (read_build_bridge-write_build_bridge m.build_bridge rest h)
payload_lem set_workshop_profile m z rest h =
    into_lem (ok (write_set_workshop_profile m.set_workshop_profile)) read_set_workshop_profile _
      rest (read_set_workshop_profile-write_set_workshop_profile m.set_workshop_profile rest h)
payload_lem assign_work_detail m z rest h =
    into_lem (ok (write_assign_work_detail m.assign_work_detail)) read_assign_work_detail _ rest
      (read_assign_work_detail-write_assign_work_detail m.assign_work_detail rest h)
payload_lem set_work_detail_mode m z rest h =
    into_lem (ok (write_set_work_detail_mode m.set_work_detail_mode)) read_set_work_detail_mode _
      rest (read_set_work_detail_mode-write_set_work_detail_mode m.set_work_detail_mode rest h)
payload_lem create_work_detail m z rest h =
    into_lem (write_create_work_detail m.create_work_detail) read_create_work_detail _ rest
      (read_create_work_detail-write_create_work_detail m.create_work_detail rest h)
payload_lem bring_goods_to_depot m z rest h =
    into_lem (write_bring_goods_to_depot m.bring_goods_to_depot) read_bring_goods_to_depot _ rest
      (read_bring_goods_to_depot-write_bring_goods_to_depot m.bring_goods_to_depot rest h)
payload_lem appoint_position m z rest h =
    into_lem (write_appoint_position m.appoint_position) read_appoint_position _ rest
      (read_appoint_position-write_appoint_position m.appoint_position rest h)
payload_lem set_bookkeeper_precision m z rest h =
    into_lem (ok (write_set_bookkeeper_precision m.set_bookkeeper_precision))
      read_set_bookkeeper_precision _ rest
      (read_set_bookkeeper_precision-write_set_bookkeeper_precision m.set_bookkeeper_precision rest
        h)
payload_lem create_squad m z rest h =
    into_lem (write_create_squad m.create_squad) read_create_squad _ rest
      (read_create_squad-write_create_squad m.create_squad rest h)
payload_lem assign_squad m z rest h =
    into_lem (ok (write_assign_squad m.assign_squad)) read_assign_squad _ rest
      (read_assign_squad-write_assign_squad m.assign_squad rest h)
payload_lem squad_order m z rest h =
    into_lem (write_squad_order m.squad_order) read_squad_order _ rest
      (read_squad_order-write_squad_order m.squad_order rest h)
payload_lem cancel_order m z rest h =
    into_lem (ok (write_cancel_order m.cancel_order)) read_cancel_order _ rest
      (read_cancel_order-write_cancel_order m.cancel_order rest h)
payload_lem edit_order m z rest h =
    into_lem (ok (write_edit_order m.edit_order)) read_edit_order _ rest
      (read_edit_order-write_edit_order m.edit_order rest h)
payload_lem unmark_trade_goods m z rest h =
    into_lem (write_unmark_trade_goods m.unmark_trade_goods) read_unmark_trade_goods _ rest
      (read_unmark_trade_goods-write_unmark_trade_goods m.unmark_trade_goods rest h)
payload_lem set_depot_trade_flags m z rest h =
    into_lem (ok (write_set_depot_trade_flags m.set_depot_trade_flags)) read_set_depot_trade_flags _
      rest (read_set_depot_trade_flags-write_set_depot_trade_flags m.set_depot_trade_flags rest h)
payload_lem unknown m z rest h = elim h [ ]
