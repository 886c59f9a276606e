-- ===== src/Protocol/Command/Types.antt =====
-- The command types of internal/protocol/message.go.
pub mod Bytes
use df_ai.Base.{List, [], if◌then◌else◌, ℕ, ◌==◌, ◌∷◌}

pub data CommandType : Type 0 where
  dig build cancel : CommandType
  chop gather zone : CommandType
  blueprint unsuspend work_order : CommandType
  stockpile smooth pause : CommandType
  remove_building queue_job set_labor : CommandType
  assign_zone unassign_zone create_location : CommandType
  assign_lodging unassign_lodging remove_zone : CommandType
  build_farm_plot set_farm_crop designate_burrow : CommandType
  remove_burrow assign_burrow set_alert : CommandType
  link_building pull_lever build_bridge : CommandType
  set_workshop_profile assign_work_detail set_work_detail_mode : CommandType
  create_work_detail bring_goods_to_depot appoint_position : CommandType
  set_bookkeeper_precision create_squad assign_squad : CommandType
  squad_order cancel_order edit_order : CommandType
  unmark_trade_goods set_depot_trade_flags : CommandType
  -- A byte that is none of the constants.
  unknown : CommandType

-- The constants. No byte is `unknown`: 0 stands for it here, which is none of theirs.
unfoldable pub command_type_byte : CommandType → ℕ
command_type_byte dig = 0x01
command_type_byte build = 0x02
command_type_byte cancel = 0x03
command_type_byte chop = 0x04
command_type_byte gather = 0x05
command_type_byte zone = 0x06
command_type_byte blueprint = 0x07
command_type_byte unsuspend = 0x08
command_type_byte work_order = 0x09
command_type_byte stockpile = 0x0a
command_type_byte smooth = 0x0b
command_type_byte pause = 0x0c
command_type_byte remove_building = 0x0d
command_type_byte queue_job = 0x0e
command_type_byte set_labor = 0x0f
command_type_byte assign_zone = 0x10
command_type_byte unassign_zone = 0x11
command_type_byte create_location = 0x12
command_type_byte assign_lodging = 0x13
command_type_byte unassign_lodging = 0x14
command_type_byte remove_zone = 0x15
command_type_byte build_farm_plot = 0x16
command_type_byte set_farm_crop = 0x17
command_type_byte designate_burrow = 0x18
command_type_byte remove_burrow = 0x19
command_type_byte assign_burrow = 0x1a
command_type_byte set_alert = 0x1b
command_type_byte link_building = 0x1c
command_type_byte pull_lever = 0x1d
command_type_byte build_bridge = 0x1e
command_type_byte set_workshop_profile = 0x1f
command_type_byte assign_work_detail = 0x20
command_type_byte set_work_detail_mode = 0x21
command_type_byte create_work_detail = 0x22
command_type_byte bring_goods_to_depot = 0x23
command_type_byte appoint_position = 0x24
command_type_byte set_bookkeeper_precision = 0x25
command_type_byte create_squad = 0x26
command_type_byte assign_squad = 0x27
command_type_byte squad_order = 0x28
command_type_byte cancel_order = 0x29
command_type_byte edit_order = 0x2a
command_type_byte unmark_trade_goods = 0x2b
command_type_byte set_depot_trade_flags = 0x2c
command_type_byte unknown = 0

abbrev command_types : List CommandType
command_types =
    dig ∷ build ∷ cancel ∷ chop ∷ gather ∷ zone ∷ blueprint ∷ unsuspend ∷ work_order ∷ stockpile
    ∷ smooth ∷ pause ∷ remove_building ∷ queue_job ∷ set_labor ∷ assign_zone ∷ unassign_zone
    ∷ create_location ∷ assign_lodging ∷ unassign_lodging ∷ remove_zone ∷ build_farm_plot
    ∷ set_farm_crop ∷ designate_burrow ∷ remove_burrow ∷ assign_burrow ∷ set_alert ∷ link_building
    ∷ pull_lever ∷ build_bridge ∷ set_workshop_profile ∷ assign_work_detail ∷ set_work_detail_mode
    ∷ create_work_detail ∷ bring_goods_to_depot ∷ appoint_position ∷ set_bookkeeper_precision
    ∷ create_squad ∷ assign_squad ∷ squad_order ∷ cancel_order ∷ edit_order ∷ unmark_trade_goods
    ∷ set_depot_trade_flags ∷ []

find_type : List CommandType → ℕ → CommandType
find_type [] b = unknown
find_type (t ∷ ts) b = if command_type_byte t == b then t else find_type ts b

-- The case that a switch over the constants takes at the byte `b`.
unfoldable pub command_type_of : ℕ → CommandType
unfolding find_type command_type_byte
command_type_of = find_type command_types
