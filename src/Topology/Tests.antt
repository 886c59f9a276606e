-- ===== src/Topology/Tests.antt =====
-- The theorems on the overlay at a small map.
use df_ai.Base.{List, [], arith, of_word, ok, pos, refl, true, ◌∷◌, ◌≡◌}
use df_ai.Topology.State.{state_closed, state_open, state_unknown}
use df_ai.Topology.Overlay.{
  TopologyOverlay, Update, apply_updates, counts, empty_overlay, get_tile, get_tile_state,
  new_topology_overlay, sets_tile,
}
use df_ai.Topology.Overlay.Answers.{get_tile-apply_updates}
use df_ai.Topology.Overlay.Counts.{in_state, tally_below}
use df_ai.Topology.Overlay.Totals.{counts_lem}

abbrev small_map : TopologyOverlay
small_map = empty_overlay 3 2 2

-- A tile is dug and another seen as a wall; the third is beyond the map.
abbrev seen : List Update
seen =
    sets_tile (pos 1) (pos 0) (pos 1) state_closed
    ∷ sets_tile (pos 1) (pos 0) (pos 1) state_open
    ∷ sets_tile (pos 2) (pos 1) (pos 0) state_closed
    ∷ sets_tile (pos 3) (pos 1) (pos 0) state_open
    ∷ []

get_tile-apply_updates_example :
    (get_tile_state (pos 1) (pos 0) (pos 1) (apply_updates seen small_map) ≡ ok state_open)
    × (get_tile (pos 1) (pos 0) (pos 1) (apply_updates seen small_map) ≡ ok true)
unfolding new_topology_overlay of_word
get_tile-apply_updates_example =
    get_tile-apply_updates 3 2 2 small_map seen (pos 1) (pos 0) (pos 1)
      (omega arith, omega arith, omega arith, omega arith) refl

counts_lem_example :
    let q = apply_updates seen small_map in
    counts q ≡ (
      tally_below (in_state state_open q) q.total_tiles,
      tally_below (in_state state_closed q) q.total_tiles,
      tally_below (in_state state_unknown q) q.total_tiles,
    )
unfolding new_topology_overlay
counts_lem_example =
    counts_lem 3 2 2 small_map seen (omega arith, omega arith, omega arith, omega arith) refl
