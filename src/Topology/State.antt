-- ===== src/Topology/State.antt =====
-- internal/topology/state.go.
use Prim.Native.Nat.{bit_or, bit_and}
use df_ai.Base.{Bool, false, if◌then◌else◌, not, true, ℕ, ◌==◌}

pub data TileState : Type 0 where
  state_unknown state_open state_closed : TileState

abbrev pub same_state : TileState → TileState → Bool
same_state state_unknown state_unknown = true
same_state state_open state_open = true
same_state state_closed state_closed = true
same_state s t = false

-- The Flag constants of internal/protocol/message.go.
abbrev pub flag_hidden : ℕ
flag_hidden = 0x01

abbrev pub flag_wall : ℕ
flag_wall = 0x10

abbrev pub flag_floor : ℕ
flag_floor = 0x20

abbrev pub flag_void : ℕ
flag_void = 0x40

abbrev pub flag_liquid7 : ℕ
flag_liquid7 = 0x80

-- `flags & mask != 0`
unfoldable pub has_flag : ℕ → ℕ → Bool
has_flag flags mask = not (bit_and flags mask == 0)

unfoldable pub classify_state : ℕ → TileState
unfolding has_flag
classify_state flags =
    if has_flag flags flag_hidden
    then state_unknown
    else if has_flag flags flag_floor
    then state_open
    else if has_flag flags (bit_or flag_wall (bit_or flag_void flag_liquid7))
    then state_closed
    else state_unknown
