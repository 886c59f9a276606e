-- ===== src/Plan/Node.antt =====
-- internal/plan/types.go. A time is a number, 0 the zero time; the Go clock is an argument where the
-- code calls time.Now.
pub mod Tiles
use df_ai.Base.{
  Bool, List, String, false, if◌then◌else◌, negsuc, not, of_word, pos, pos_part, same_ℤ, suc,
  to_word, true, zero, ℕ, ℤ, ◌%◌, ◌&&◌, ◌*◌, ◌+◌, ◌-◌, ◌^◌, ◌||◌,
}

pub data Status : Type 0 where
  status_pending status_ready status_active status_done status_failed : Status

abbrev pub same_status : Status → Status → Bool
same_status status_pending status_pending = true
same_status status_ready status_ready = true
same_status status_active status_active = true
same_status status_done status_done = true
same_status status_failed status_failed = true
same_status s t = false

pub record Region : Type 0 where
  pub x1 : ℤ
  pub y1 : ℤ
  pub z1 : ℤ
  pub x2 : ℤ
  pub y2 : ℤ
  pub z2 : ℤ

-- The difference of two int16, which wraps.
unfoldable pub sub_i16 : ℤ → ℤ → ℤ
sub_i16 a b = of_word (2 ^ 15) ((to_word (2 ^ 15) a + 2 ^ 16 - to_word (2 ^ 15) b) % 2 ^ 16)

abbrev pub plus_one : ℤ → ℤ
plus_one (pos n) = pos (suc n)
plus_one (negsuc zero) = pos 0
plus_one (negsuc (suc n)) = negsuc n

abbrev pub is_negative : ℤ → Bool
is_negative (pos n) = false
is_negative (negsuc n) = true

-- `int(to-from) + 1`
unfoldable pub extent : ℤ → ℤ → ℤ
unfolding sub_i16
extent from to = plus_one (sub_i16 to from)

-- The product has at most 45 bits, so Go's int holds it.
unfoldable pub region_tile_count : Region → ℕ
unfolding extent
region_tile_count r =
    let dx = extent r.x1 r.x2 in
    let dy = extent r.y1 r.y2 in
    let dz = extent r.z1 r.z2 in
    if is_negative dx || is_negative dy || is_negative dz
    then 0
    else pos_part dx * pos_part dy * pos_part dz

unfoldable pub is_vertical_shaft : Region → Bool
is_vertical_shaft r = not (same_ℤ r.z1 r.z2) && same_ℤ r.x1 r.x2 && same_ℤ r.y1 r.y2

-- `kind` is the field Type.
pub record Action : Type 0 where
  pub kind : String
  pub dig_type : String
  pub build_type : ℕ
  pub zone_type : ℕ
  pub order_type : ℕ
  pub quantity : ℕ
  pub stockpile_groups : ℕ
  pub smooth_type : ℕ
  pub alert_id : ℕ
  pub region : Region
  pub description : String

pub record Node : Type 0 where
  pub id : String
  pub action : Action
  pub dependencies : List String
  pub status : Status
  pub created_at : ℕ
  pub started_at : ℕ
  pub done_at : ℕ
  pub last_progress_at : ℕ
  pub stall_noted_at : ℕ
  pub result : String
  pub prediction_count : ℕ
  pub predictions_confirmed : ℕ
  pub predictions_diverged : ℕ
  pub committing_turn : ℕ

unfoldable pub is_terminal : Node → Bool
is_terminal n = same_status n.status status_done || same_status n.status status_failed

pub record Stats : Type 0 where
  pub pending : ℕ
  pub ready : ℕ
  pub active : ℕ
  pub done : ℕ
  pub failed : ℕ
