-- ===== src/Commands/Request/Wire.antt =====
-- The messages of internal/commands/executor.go on the wire of internal/protocol.
use df_ai.Commands.Request.{
  FitsRequest, Request, appoint_position_request, assign_burrow_request, assign_lodging_request,
  assign_squad_request, assign_work_detail_request, assign_zone_request,
  bring_goods_to_depot_request, build_bridge_request, build_by_name_full_request,
  build_by_name_request, build_farm_plot_request, build_full_request, build_request,
  build_with_material_and_quality_request, build_with_material_request, cancel_order_request,
  cancel_request, chop_request, create_location_request, create_squad_request,
  create_work_detail_request, designate_burrow_request, dig_region_request, dig_request,
  edit_order_request, gather_request, link_building_request, message_of, pause_request,
  pull_lever_request, queue_job_request, remove_building_request, remove_burrow_request,
  remove_zone_request, set_alert_request, set_bookkeeper_precision_request,
  set_depot_trade_flags_request, set_farm_crop_request, set_labor_request,
  set_work_detail_mode_request, set_workshop_profile_request, smooth_request,
  squad_order_cancel_request, squad_order_defend_burrow_request, squad_order_station_request,
  step_request, stockpile_request, unassign_lodging_request, unassign_zone_request,
  unmark_trade_goods_request, unsuspend_request, work_order_request, zone_request,
}
use df_ai.Protocol.Wire.{Bytes, IsI16, IsName, IsU32}
use df_ai.Base.{
  Bool, [], ap, arith, false, if◌then◌else◌, ltb_ℤ, ok, refl, true, ℕ, ℤ, ◌&&◌, ◌==◌, ◌>>=◌, ◌∙◌,
  ◌≡◌,
}
use df_ai.Protocol.Command.Validate.{leb_ℤ, need, validate_command}
use df_ai.Protocol.Frame.Commands.{decode_command, decode_command-encode_command, encode_command}
use df_ai.Protocol.Command.RoundTrip.{FitsCommand, sent_command}
use df_ai.Protocol.Command.Types.{command_type_of}
use df_ai.Protocol.Command.Jobs.{order_type_by_name, order_type_custom_reaction}
use df_ai.Commands.Send.Areas.{send_dig_region}

one_of : (P : ℤ → Type 0) (b : Bool) {x y : ℤ} → P x → P y → P (if b then x else y)
one_of P true p q = p
one_of P false p q = q

either-IsName : (b : Bool) (s t : Bytes) → IsName s → IsName t → IsName (if b then s else t)
either-IsName true s t p q = p
either-IsName false s t p q = q

-- A message that a call builds has its type's values, within their ranges.
pub message_of-FitsCommand :
    (r : Request) (id : ℕ) → IsU32 id → FitsRequest r → FitsCommand (message_of r id)
unfolding message_of command_type_of
message_of-FitsCommand (dig_request dig_type x1 y1 z x2 y2) id i h =
    (i, omega arith, (h.0, (h.1, h.2, one_of IsI16 _ h.3 h.3, h.4, h.5, one_of IsI16 _ h.3 h.3)))
message_of-FitsCommand (dig_region_request dig_type x1 y1 z1 x2 y2 z2) id i h =
    (i, omega arith, (h.0, (h.1, h.2, one_of IsI16 _ h.6 h.3, h.4, h.5, one_of IsI16 _ h.3 h.6)))
message_of-FitsCommand (build_request x y z build_type) id i h =
    (i, omega arith, (h.0, h.1, h.2, h.3, omega arith, omega arith, omega arith, omega arith))
message_of-FitsCommand (build_with_material_request x y z build_type material) id i h =
    (i, omega arith, (h.0, h.1, h.2, h.3, h.4, omega arith, omega arith, omega arith))
message_of-FitsCommand (build_with_material_and_quality_request x y z build_type material quality)
      id i h =
    (i, omega arith, (h.0, h.1, h.2, h.3, h.4, h.5, omega arith, omega arith))
message_of-FitsCommand (build_full_request x y z build_type material quality orientation) id i h =
    (i, omega arith, (h.0, h.1, h.2, h.3, h.4, h.5, h.6, omega arith))
message_of-FitsCommand (build_by_name_request x y z name material quality) id i h =
    (i, omega arith, (h.0, h.1, h.2, omega arith, h.4, h.5, omega arith, h.3))
message_of-FitsCommand (build_by_name_full_request x y z name material quality orientation) id i h =
    (i, omega arith, (h.0, h.1, h.2, omega arith, h.4, h.5, h.6, h.3))
message_of-FitsCommand (cancel_request x1 y1 z x2 y2) id i h =
    (i, omega arith, (omega arith, (h.0, h.1, h.2, h.3, h.4, h.2)))
message_of-FitsCommand (chop_request x1 y1 z x2 y2) id i h =
    (i, omega arith, (h.0, h.1, h.2, h.3, h.4, h.2))
message_of-FitsCommand (gather_request x1 y1 z x2 y2) id i h =
    (i, omega arith, (h.0, h.1, h.2, h.3, h.4, h.2))
message_of-FitsCommand (zone_request zone_type x1 y1 z x2 y2) id i h =
    (i, omega arith, (h.0, h.1, h.2, h.3, h.4, h.5))
message_of-FitsCommand (assign_zone_request x y z unit_id) id i h =
    (i, omega arith, (h.0, h.1, h.2, h.3))
message_of-FitsCommand (unassign_zone_request x y z unit_id) id i h =
    (i, omega arith, (h.0, h.1, h.2, h.3))
message_of-FitsCommand (create_location_request x y z location_type profession) id i h =
    (i, omega arith, (h.0, h.1, h.2, h.3, h.4))
message_of-FitsCommand
      (assign_lodging_request tavern_x tavern_y tavern_z bedroom_x bedroom_y bedroom_z) id i h =
    (i, omega arith, (h.0, h.1, h.2, h.3, h.4, h.5))
message_of-FitsCommand (unassign_lodging_request bedroom_x bedroom_y bedroom_z) id i h =
    (i, omega arith, (h.0, h.1, h.2))
message_of-FitsCommand (unsuspend_request x y z) id i h = (i, omega arith, (h.0, h.1, h.2))
message_of-FitsCommand (remove_building_request x y z) id i h = (i, omega arith, (h.0, h.1, h.2))
message_of-FitsCommand (remove_zone_request x y z) id i h = (i, omega arith, (h.0, h.1, h.2))
message_of-FitsCommand
      (work_order_request order_type quantity job_type_name material subtype frequency) id i h =
    (i, omega arith, (h.0, h.1, either-IsName _ job_type_name [] h.2 (omega arith), h.3, h.5, h.4))
message_of-FitsCommand (queue_job_request x y z order_type name material subtype) id i h = (
  i,
  omega arith,
  (
    h.0,
    h.1,
    h.2,
    h.3,
    either-IsName _ name [] h.4 (omega arith),
    either-IsName (order_type == order_type_by_name) []
        (if order_type == order_type_custom_reaction then name else []) (omega arith)
        (either-IsName (order_type == order_type_custom_reaction) name [] h.4 (omega arith)),
    h.5,
    h.6,
  ),
)
message_of-FitsCommand (set_labor_request unit_id labor_id enable) id i h =
    (i, omega arith, (h.0, h.1))
message_of-FitsCommand (stockpile_request x1 y1 z x2 y2 group_mask) id i h =
    (i, omega arith, (h.0, h.1, h.2, h.3, h.4, h.5))
message_of-FitsCommand (build_farm_plot_request x1 y1 z x2 y2) id i h =
    (i, omega arith, (h.0, h.1, h.2, h.3, h.4))
message_of-FitsCommand (set_farm_crop_request x y z season crop_name) id i h =
    (i, omega arith, (h.0, h.1, h.2, h.3, h.4))
message_of-FitsCommand (designate_burrow_request name x1 y1 z1 x2 y2 z2) id i h =
    (i, omega arith, (h.0, h.1, h.2, h.3, h.4, h.5, h.6))
message_of-FitsCommand (remove_burrow_request name) id i h = (i, omega arith, h)
message_of-FitsCommand (assign_burrow_request name unit_id all_citizens assign) id i h =
    (i, omega arith, (h.0, h.1))
message_of-FitsCommand (set_alert_request name active) id i h = (i, omega arith, h)
message_of-FitsCommand (link_building_request lever_x lever_y lever_z target_x target_y target_z) id
      i h =
    (i, omega arith, (h.0, h.1, h.2, h.3, h.4, h.5))
message_of-FitsCommand (pull_lever_request x y z) id i h = (i, omega arith, (h.0, h.1, h.2))
message_of-FitsCommand (build_bridge_request x1 y1 z x2 y2 direction) id i h =
    (i, omega arith, (h.0, h.1, h.2, h.3, h.4, h.5))
message_of-FitsCommand
      (set_workshop_profile_request x y z min_skill_level max_skill_level worker_unit_id) id i h =
    (i, omega arith, (h.0, h.1, h.2, h.3, h.4, h.5))
message_of-FitsCommand (assign_work_detail_request detail_index unit_id add) id i h =
    (i, omega arith, (h.0, h.1))
message_of-FitsCommand (set_work_detail_mode_request detail_index mode) id i h =
    (i, omega arith, (h.0, h.1))
message_of-FitsCommand (create_work_detail_request name mode labor_ids) id i h =
    (i, omega arith, (h.0, h.1, h.2))
message_of-FitsCommand
      (bring_goods_to_depot_request x y z item_type_filter material_filter item_class max_count
        max_total_value)
      id i h =
    (i, omega arith, (h.0, h.1, h.2, h.3, h.4, h.6, h.7, h.5))
message_of-FitsCommand
      (unmark_trade_goods_request x y z item_type_filter material_filter item_class max_count) id i
      h =
    (i, omega arith, (h.0, h.1, h.2, h.3, h.4, h.5, h.6))
message_of-FitsCommand (set_depot_trade_flags_request x y z trader_requested anyone_can_trade) id i
      h =
    (i, omega arith, (h.0, h.1, h.2))
message_of-FitsCommand (appoint_position_request unit_id position_code) id i h =
    (i, omega arith, (h.0, h.1))
message_of-FitsCommand (set_bookkeeper_precision_request precision) id i h = (i, omega arith, h)
message_of-FitsCommand (create_squad_request position_code) id i h = (i, omega arith, h)
message_of-FitsCommand (assign_squad_request squad_id unit_id add) id i h =
    (i, omega arith, (h.0, h.1))
message_of-FitsCommand (squad_order_station_request squad_id x y z) id i h =
    (i, omega arith, (h.0, omega arith, h.1, h.2, h.3, omega arith))
message_of-FitsCommand (squad_order_defend_burrow_request squad_id burrow_name) id i h =
    (i, omega arith, (h.0, omega arith, omega arith, omega arith, omega arith, h.1))
message_of-FitsCommand (squad_order_cancel_request squad_id) id i h =
    (i, omega arith, (h, omega arith, omega arith, omega arith, omega arith, omega arith))
message_of-FitsCommand (cancel_order_request order_id) id i h = (i, omega arith, h)
message_of-FitsCommand (edit_order_request order_id has_amount amount has_frequency frequency) id i
      h =
    (i, omega arith, (h.0, h.1, h.2))
message_of-FitsCommand (smooth_request smooth_type x1 y1 z x2 y2) id i h =
    (i, omega arith, (h.0, h.1, h.2, h.3, h.4, h.5))
message_of-FitsCommand (pause_request paused) id i h = (i, omega arith, ground arith)
message_of-FitsCommand (step_request ticks) id i h = (i, omega arith, (omega arith, h))

-- Nothing that a call puts into its message is lost on the wire.
pub sent_command-message_of :
    (r : Request) (id : ℕ) → sent_command (message_of r id) ≡ message_of r id
unfolding message_of command_type_of
sent_command-message_of (build_request x y z build_type) id = ground arith
sent_command-message_of (build_with_material_request x y z build_type material) id = ground arith
sent_command-message_of (build_with_material_and_quality_request x y z build_type material quality)
      id =
    ground arith
sent_command-message_of (build_full_request x y z build_type material quality orientation) id =
    ground arith
sent_command-message_of
      (work_order_request order_type quantity job_type_name material subtype frequency) id =
    ground arith
sent_command-message_of (queue_job_request x y z order_type name material subtype) id = ground arith
sent_command-message_of r id = refl

-- The message of a call of any of the 52 Send methods, with arguments of their Go types, texts
-- within their limits and a uint32 id, is encoded by EncodeCommand if Validate accepts it, and
-- DecodeCommand gives it back unchanged.
pub decode_command-message_of :
    (r : Request) (id : ℕ)
    → IsU32 id
    → FitsRequest r
    → validate_command (message_of r id) ≡ ok tt
    → (encode_command (message_of r id) >>= decode_command) ≡ ok (message_of r id)
decode_command-message_of r id i h v =
    decode_command-encode_command (message_of r id) (message_of-FitsCommand r id i h) v
    ∙ ap ok (sent_command-message_of r id)

ascending : (a b : ℤ) → leb_ℤ (if ltb_ℤ b a then b else a) (if ltb_ℤ b a then a else b) ≡ true
ascending a b = ground arith

-- The message of SendDigRegion passes Validate exactly if its x and its y coordinates are in order;
-- the z coordinates may be in any order.
pub validate_command-send_dig_region :
    (dig_type : ℕ) (x1 y1 z1 x2 y2 z2 : ℤ) (id : ℕ)
    → validate_command (send_dig_region dig_type x1 y1 z1 x2 y2 z2 id)
      ≡ need (leb_ℤ x1 x2 && leb_ℤ y1 y2)
unfolding validate_command command_type_of send_dig_region
validate_command-send_dig_region dig_type x1 y1 z1 x2 y2 z2 id =
    ap need (ground (arith, ascending z1 z2))
