-- ===== src/Protocol/Command/Types/Bytes.antt =====
-- The bytes of the command types of internal/protocol/message.go.
use df_ai.Protocol.Wire.{IsU8}
use df_ai.Base.{
  Bool, arith, false, if◌then◌else◌, inl, inr, leb, not, refl, suc, true, zero, ℕ, ◌&&◌, ◌<◌, ◌==◌,
  ◌↔◌, ◌≡◌, ◌≢◌, ◌≤◌, ◌⊎◌,
}
use df_ai.Protocol.Command.Types.{
  CommandType, appoint_position, assign_burrow, assign_lodging, assign_squad, assign_work_detail,
  assign_zone, blueprint, bring_goods_to_depot, build, build_bridge, build_farm_plot, cancel,
  cancel_order, chop, command_type_byte, command_type_of, create_location, create_squad,
  create_work_detail, designate_burrow, dig, edit_order, gather, link_building, pause, pull_lever,
  queue_job, remove_building, remove_burrow, remove_zone, set_alert, set_bookkeeper_precision,
  set_depot_trade_flags, set_farm_crop, set_labor, set_work_detail_mode, set_workshop_profile,
  smooth, squad_order, stockpile, unassign_lodging, unassign_zone, unknown, unmark_trade_goods,
  unsuspend, work_order, zone,
}
use native.Mathlib.Decide.{dec_le}

unfoldable pub is_known : CommandType → Bool
is_known unknown = false
is_known other = true

-- Over the bytes, a test is checked by evaluation.
holds_under : (ℕ → Bool) → ℕ → Bool
holds_under test zero = true
holds_under test (suc top) = holds_under test top && test top

holds_at : (test : ℕ → Bool) (top b : ℕ) → b < top → holds_under test top ≡ true → test b ≡ true
unfolding holds_under
holds_at test zero b under all = absurd (omega arith)
holds_at test (suc top) b under all = ground (arith, holds_at test top b)

in_range : ℕ → Bool
in_range b = leb 0x01 b && leb b 0x2c

agreement : ℕ → CommandType → Bool
agreement b t = if in_range b then is_known t && command_type_byte t == b else not (is_known t)

agrees : ℕ → Bool
agrees b = agreement b (command_type_of b)

table : holds_under agrees 256 ≡ true
unfolding holds_under agrees agreement in_range is_known command_type_of command_type_byte
table = refl

known_ne : (t : CommandType) → is_known t ≡ true → t ≢ unknown
unfolding is_known
known_ne t h e = let k : is_known unknown ≡ true = rw e at h in cc

unknown_of : (t : CommandType) → is_known t ≡ false → t ≡ unknown
unfolding is_known
unknown_of unknown h = refl
unknown_of other h = cc

agrees_at : (b : ℕ) → IsU8 b → agrees b ≡ true
agrees_at b h = holds_at agrees 256 b h table

known_in :
    (b : ℕ)
    → IsU8 b
    → 1 ≤ b
    → b ≤ 0x2c
    → (is_known (command_type_of b) ≡ true) × (command_type_byte (command_type_of b) ≡ b)
unfolding in_range agrees agreement
known_in b h lo hi = ground (arith, agrees_at b h)

unknown_out : (b : ℕ) → IsU8 b → (b < 1) ⊎ (0x2c < b) → command_type_of b ≡ unknown
unfolding in_range agrees agreement
unknown_out b h out = unknown_of (command_type_of b) (ground (arith, agrees_at b h))

-- Of the 256 bytes, those of the range that Validate admits, 0x01 to 0x2C, are exactly those that
-- the switches of the codec have a case for.
pub command_type_of_range :
    (b : ℕ) → IsU8 b → ((1 ≤ b) × (b ≤ 0x2c)) ↔ (command_type_of b ≢ unknown)
command_type_of_range b h = (
  λ r. known_ne _ (known_in b h r.0 r.1).0,
  λ known. (
    elim (dec_le 1 b) [ yes p ↦ p | no q ↦ absurd (known (unknown_out b h (inl (omega arith)))) ],
    elim (dec_le b 0x2c) [
      | yes p ↦ p
      | no q ↦ absurd (known (unknown_out b h (inr (omega arith))))
    ],
  ),
)

-- For a byte from 0x01 to 0x2C, the case that the switches of the codec take is the one whose
-- constant is the byte.
pub command_type_byte-command_type_of :
    (b : ℕ) → IsU8 b → 1 ≤ b → b ≤ 0x2c → command_type_byte (command_type_of b) ≡ b
command_type_byte-command_type_of b h lo hi = (known_in b h lo hi).1

-- Distinct types have distinct bytes.
pub command_type_of-command_type_byte :
    (t : CommandType) → command_type_of (command_type_byte t) ≡ t
unfolding command_type_of command_type_byte
command_type_of-command_type_byte dig = refl
command_type_of-command_type_byte build = refl
command_type_of-command_type_byte cancel = refl
command_type_of-command_type_byte chop = refl
command_type_of-command_type_byte gather = refl
command_type_of-command_type_byte zone = refl
command_type_of-command_type_byte blueprint = refl
command_type_of-command_type_byte unsuspend = refl
command_type_of-command_type_byte work_order = refl
command_type_of-command_type_byte stockpile = refl
command_type_of-command_type_byte smooth = refl
command_type_of-command_type_byte pause = refl
command_type_of-command_type_byte remove_building = refl
command_type_of-command_type_byte queue_job = refl
command_type_of-command_type_byte set_labor = refl
command_type_of-command_type_byte assign_zone = refl
command_type_of-command_type_byte unassign_zone = refl
command_type_of-command_type_byte create_location = refl
command_type_of-command_type_byte assign_lodging = refl
command_type_of-command_type_byte unassign_lodging = refl
command_type_of-command_type_byte remove_zone = refl
command_type_of-command_type_byte build_farm_plot = refl
command_type_of-command_type_byte set_farm_crop = refl
command_type_of-command_type_byte designate_burrow = refl
command_type_of-command_type_byte remove_burrow = refl
command_type_of-command_type_byte assign_burrow = refl
command_type_of-command_type_byte set_alert = refl
command_type_of-command_type_byte link_building = refl
command_type_of-command_type_byte pull_lever = refl
command_type_of-command_type_byte build_bridge = refl
command_type_of-command_type_byte set_workshop_profile = refl
command_type_of-command_type_byte assign_work_detail = refl
command_type_of-command_type_byte set_work_detail_mode = refl
command_type_of-command_type_byte create_work_detail = refl
command_type_of-command_type_byte bring_goods_to_depot = refl
command_type_of-command_type_byte appoint_position = refl
command_type_of-command_type_byte set_bookkeeper_precision = refl
command_type_of-command_type_byte create_squad = refl
command_type_of-command_type_byte assign_squad = refl
command_type_of-command_type_byte squad_order = refl
command_type_of-command_type_byte cancel_order = refl
command_type_of-command_type_byte edit_order = refl
command_type_of-command_type_byte unmark_trade_goods = refl
command_type_of-command_type_byte set_depot_trade_flags = refl
command_type_of-command_type_byte unknown = refl
