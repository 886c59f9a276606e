-- ===== src/Topology/Overlay/Answers.antt =====
-- GetTileState, GetTile and IsOpen of internal/topology after calls of SetTileState.
use df_ai.Base.{
  Bool, List, ap, err, false, if◌then◌else◌, ok, out_of_bounds, refl, some, sym, true, ℕ, ℤ, ◌∙◌,
  ◌≡◌,
}
use df_ai.Topology.Bits.{get_bit}
use df_ai.Topology.State.{TileState, same_state, state_closed, state_open, state_unknown}
use df_ai.Topology.Overlay.{
  TopologyOverlay, Update, apply_updates, bit_index, get_tile, get_tile_state, has_byte, is_outside,
  new_topology_overlay, state_at,
}
use df_ai.Topology.Overlay.Places.{bit_index_lem, inner-Place}
use df_ai.Topology.Overlay.Reads.{IsOverlay}
use df_ai.Topology.Overlay.History.{apply_updates-AreUpdated, has_byte_lem, is_outside_same, latest}
use df_ai.Topology.Overlay.New.{FitsSizes, new_topology_overlay-IsNew}

-- The index of a tile has a byte.
in_place :
    (t : TopologyOverlay) (x y z : ℤ)
    → IsOverlay t
    → is_outside t x y z ≡ false
    → has_byte t (bit_index t x y z) ≡ true
in_place t x y z v inner =
    has_byte_lem t (bit_index t x y z) v
      (bit_index_lem t x y z v.fits (inner-Place t x y z v.fits inner)).1

reads_state :
    (x y z : ℤ) (q : TopologyOverlay) (b : Bool) (s : TileState)
    → IsOverlay q
    → is_outside q x y z ≡ b
    → (b ≡ false → state_at q (bit_index q x y z) ≡ s)
    → get_tile_state x y z q ≡ ok (if b then state_unknown else s)
unfolding get_tile_state
reads_state x y z q true s v out found = rw (out) refl
reads_state x y z q false s v out found = rw (out, in_place q x y z v out, found refl) refl

floor_bit :
    (k d : Bool)
    → (d ≡ true → k ≡ true)
    → d
      ≡ same_state
          (if k then (if d then state_open else state_closed) else state_unknown)
          state_open
floor_bit true true h = refl
floor_bit true false h = refl
floor_bit false true h = sym (h refl)
floor_bit false false h = refl

open_bit :
    (q : TopologyOverlay) (i : ℕ) (s : TileState)
    → IsOverlay q
    → state_at q i ≡ s
    → get_bit q.data_bits i ≡ same_state s state_open
unfolding state_at
open_bit q i s v found =
    floor_bit (get_bit q.known_bits i) (get_bit q.data_bits i) (v.open_known i)
    ∙ ap (λ c. same_state c state_open) found

reads_open :
    (x y z : ℤ) (q : TopologyOverlay) (b : Bool) (s : TileState)
    → IsOverlay q
    → is_outside q x y z ≡ b
    → (b ≡ false → state_at q (bit_index q x y z) ≡ s)
    → get_tile x y z q ≡ (if b then err out_of_bounds else ok (same_state s state_open))
unfolding get_tile
reads_open x y z q true s v out found = rw (out) refl
reads_open x y z q false s v out found =
    rw (out, in_place q x y z v out, open_bit q (bit_index q x y z) s v (found refl)) refl

-- On a map of sizes below 2 ^ 15 whose number of tiles plus 7 is below 2 ^ 32, after any calls of
-- SetTileState on a new overlay, GetTileState gives for a tile of the map the state that the last
-- call for its coordinates set, or unknown, and GetTile whether that state is open; beyond the map
-- GetTileState gives unknown and GetTile an error.
pub get_tile-apply_updates :
    (width height depth : ℕ) (t : TopologyOverlay) (us : List Update) (x y z : ℤ)
    → FitsSizes width height depth
    → new_topology_overlay width height depth ≡ some t
    → let q = apply_updates us t in
      let s = latest x y z us state_unknown in
      (get_tile_state x y z q ≡ ok (if is_outside t x y z then state_unknown else s))
      × (get_tile x y z q
          ≡ (if is_outside t x y z then err out_of_bounds else ok (same_state s state_open)))
get_tile-apply_updates width height depth t us x y z fits made =
    let n = new_topology_overlay-IsNew width height depth t fits made in
    let done = apply_updates-AreUpdated us t n.is_overlay in
    let q = apply_updates us t in
    let out = is_outside_same q t x y z done.same_maps in
    let found : is_outside t x y z ≡ false
        → state_at q (bit_index q x y z) ≡ latest x y z us state_unknown =
      λ inner.
        done.all_reads x y z inner ∙ ap (latest x y z us) (n.nothing_known (bit_index t x y z)) in
    (
      reads_state x y z q (is_outside t x y z) (latest x y z us state_unknown) done.ends out found,
      reads_open x y z q (is_outside t x y z) (latest x y z us state_unknown) done.ends out found,
    )
