-- ===== src/Topology/Overlay.antt =====
-- internal/topology/overlay.go and query.go. An index beyond the end of an array is the error
-- index_panic; the two arrays have the same length wherever the code makes them, and one test stands
-- for both accesses. The field memoryBytes, which is only reported, is left out.
pub mod Places
pub mod Reads
pub mod New
pub mod History
pub mod Answers
pub mod Counts
pub mod Totals
use df_ai.Base.{
  Bool, List, Option, Result, [], err, false, if◌then◌else◌, index_panic, length, ltb, ltb_ℤ, none,
  not, of_word, ok, out_of_bounds, pos, pos_part, some, suc, true, zero, ℕ, ℤ, ◌%◌, ◌&&◌, ◌*◌, ◌+◌,
  ◌-◌, ◌/◌, ◌==◌, ◌^◌, ◌||◌, ◌∷◌,
}
use df_ai.Topology.Bits.{get_bit, put_bit}
use df_ai.Topology.State.{TileState, state_closed, state_open, state_unknown}

pub record TopologyOverlay : Type 0 where
  pub data_bits : List ℕ
  pub known_bits : List ℕ
  pub width : ℕ
  pub height : ℕ
  pub depth : ℕ
  pub total_tiles : ℕ
  pub open_tile_count : ℕ
  pub closed_tile_count : ℕ
  pub build_time : ℕ

-- make([]byte, n)
unfoldable pub zero_bytes : ℕ → List ℕ
zero_bytes zero = []
zero_bytes (suc n) = 0 ∷ zero_bytes n

-- `(total + 7) / 8`, in uint32
abbrev pub bytes_needed : ℕ → ℕ
bytes_needed total = (total + 7) % 2 ^ 32 / 8

abbrev pub tile_total : ℕ → ℕ → ℕ → ℕ
tile_total width height depth = width * height % 2 ^ 32 * depth % 2 ^ 32

abbrev pub empty_overlay : (width height depth : ℕ) → TopologyOverlay
empty_overlay width height depth = record {
  data_bits = zero_bytes (bytes_needed (tile_total width height depth));
  known_bits = zero_bytes (bytes_needed (tile_total width height depth));
  width = width;
  height = height;
  depth = depth;
  total_tiles = tile_total width height depth;
  open_tile_count = 0;
  closed_tile_count = 0;
  build_time = 0;
}

unfoldable pub new_topology_overlay : (width height depth : ℕ) → Option TopologyOverlay
new_topology_overlay width height depth =
    if width == 0 || height == 0 || depth == 0
    then none
    else some (empty_overlay width height depth)

-- `c < 0 || c >= int16(size)`
abbrev pub is_beyond : ℤ → ℕ → Bool
is_beyond c size = ltb_ℤ c (pos 0) || not (ltb_ℤ c (of_word (2 ^ 15) size))

abbrev pub is_outside : TopologyOverlay → ℤ → ℤ → ℤ → Bool
is_outside t x y z = is_beyond x t.width || is_beyond y t.height || is_beyond z t.depth

-- The sums and products are in uint32; the coordinates are not negative here.
unfoldable pub bit_index : TopologyOverlay → ℤ → ℤ → ℤ → ℕ
bit_index t x y z = (pos_part z * t.width * t.height + pos_part y * t.width + pos_part x) % 2 ^ 32

-- Whether the byte of a bit is there.
abbrev pub has_byte : TopologyOverlay → ℕ → Bool
has_byte t i = ltb (i / 8) (length t.known_bits) && ltb (i / 8) (length t.data_bits)

-- What the two bits of an index say.
unfoldable pub state_at : TopologyOverlay → ℕ → TileState
unfolding get_bit
state_at t i =
    if get_bit t.known_bits i
    then (if get_bit t.data_bits i then state_open else state_closed)
    else state_unknown

-- A uint32 counter after -- and ++.
abbrev pub decrement : ℕ → ℕ
decrement n = (n + (2 ^ 32 - 1)) % 2 ^ 32

abbrev pub increment : ℕ → ℕ
increment n = (n + 1) % 2 ^ 32

-- The count of the state that a tile leaves.
abbrev pub leave_state : TileState → TopologyOverlay → TopologyOverlay
leave_state state_open t = record t { open_tile_count = decrement t.open_tile_count }
leave_state state_closed t = record t { closed_tile_count = decrement t.closed_tile_count }
leave_state state_unknown t = t

-- The switch on the new state.
abbrev pub enter_state : TileState → ℕ → TopologyOverlay → TopologyOverlay
enter_state state_open i t = record t {
  known_bits = put_bit true i t.known_bits;
  data_bits = put_bit true i t.data_bits;
  open_tile_count = increment t.open_tile_count;
}
enter_state state_closed i t = record t {
  known_bits = put_bit true i t.known_bits;
  data_bits = put_bit false i t.data_bits;
  closed_tile_count = increment t.closed_tile_count;
}
enter_state state_unknown i t = record t {
  known_bits = put_bit false i t.known_bits;
  data_bits = put_bit false i t.data_bits;
}

unfoldable pub put_state : TileState → ℕ → TopologyOverlay → TopologyOverlay
unfolding state_at put_bit
put_state s i t = enter_state s i (leave_state (state_at t i) t)

unfoldable pub set_tile_state : (x y z : ℤ) → TileState → TopologyOverlay → Result TopologyOverlay
unfolding put_state bit_index
set_tile_state x y z s t =
    if is_outside t x y z
    then err out_of_bounds
    else if has_byte t (bit_index t x y z)
    then ok (put_state s (bit_index t x y z) t)
    else err index_panic

unfoldable pub set_tile : (x y z : ℤ) → Bool → TopologyOverlay → Result TopologyOverlay
unfolding set_tile_state
set_tile x y z is_open t = set_tile_state x y z (if is_open then state_open else state_closed) t

unfoldable pub get_tile_state : (x y z : ℤ) → TopologyOverlay → Result TileState
unfolding state_at bit_index
get_tile_state x y z t =
    if is_outside t x y z
    then ok state_unknown
    else if has_byte t (bit_index t x y z)
    then ok (state_at t (bit_index t x y z))
    else err index_panic

unfoldable pub get_tile : (x y z : ℤ) → TopologyOverlay → Result Bool
unfolding get_bit bit_index
get_tile x y z t =
    if is_outside t x y z
    then err out_of_bounds
    else if has_byte t (bit_index t x y z)
    then ok (get_bit t.data_bits (bit_index t x y z))
    else err index_panic

-- The body of IsOpen is that of GetTile.
unfoldable pub is_open : (x y z : ℤ) → TopologyOverlay → Result Bool
unfolding get_tile
is_open x y z t = get_tile x y z t

-- The counts of open, closed and unknown tiles, in uint32.
unfoldable pub counts : TopologyOverlay → ℕ × ℕ × ℕ
counts t = (
  t.open_tile_count,
  t.closed_tile_count,
  (t.total_tiles + (2 ^ 32 - t.open_tile_count) + (2 ^ 32 - t.closed_tile_count)) % 2 ^ 32,
)

-- One call of SetTileState; the caller goes on with the overlay after an error.
pub data Update : Type 0 where
  sets_tile : (x y z : ℤ) (s : TileState) → Update

abbrev pub kept : TopologyOverlay → Result TopologyOverlay → TopologyOverlay
kept t (ok changed) = changed
kept t (err e) = t

unfoldable pub apply_update : Update → TopologyOverlay → TopologyOverlay
unfolding set_tile_state
apply_update (sets_tile x y z s) t = kept t (set_tile_state x y z s t)

unfoldable pub apply_updates : List Update → TopologyOverlay → TopologyOverlay
unfolding apply_update
apply_updates [] t = t
apply_updates (u ∷ us) t = apply_updates us (apply_update u t)
