-- ===== src/Topology/Overlay/Totals.antt =====
-- Counts of internal/topology/overlay.go after calls of SetTileState.
use mathlib.Core.Path.{subst}
use df_ai.Base.{
  Bool, Bool-cases, List, [], ap, arith, false, inl, inr, refl, some, suc, sym, zero, ℕ, ◌%◌, ◌+◌,
  ◌-◌, ◌^◌, ◌∙◌, ◌∷◌, ◌≡◌,
}
use df_ai.Topology.State.{TileState, same_state, state_closed, state_open, state_unknown}
use df_ai.Topology.Overlay.{
  TopologyOverlay, Update, apply_update, apply_updates, bit_index, counts, is_outside, kept,
  new_topology_overlay, set_tile_state, sets_tile, state_at,
}
use df_ai.Topology.Overlay.Places.{bit_index_lem, inner-Place}
use df_ai.Topology.Overlay.Reads.{IsOverlay}
use df_ai.Topology.Overlay.History.{
  apply_update-IsUpdated, apply_updates-AreUpdated, set_tile_state_lem,
}
use df_ai.Topology.Overlay.New.{FitsSizes, IsNew, new_topology_overlay-IsNew}
use df_ai.Topology.Overlay.Counts.{IsCounted, in_state, one, put_state-IsCounted, tally_below}

apply_update-IsCounted :
    (u : Update) (t : TopologyOverlay) → IsOverlay t → IsCounted t → IsCounted (apply_update u t)
unfolding apply_update set_tile_state
apply_update-IsCounted (sets_tile x y z s) t v k = elim (Bool-cases (is_outside t x y z)) [
  | inl out ↦
      let same : kept t (set_tile_state x y z s t) ≡ t = rw (out) refl in
      subst IsCounted (sym same) k
  | inr inner ↦
      let same = ap (kept t) (set_tile_state_lem x y z s t v inner) in
      let place = inner-Place t x y z v.fits inner in
      subst IsCounted (sym same)
        (put_state-IsCounted s (bit_index t x y z) t v (bit_index_lem t x y z v.fits place).1 k)
]

apply_updates-IsCounted :
    (us : List Update) (t : TopologyOverlay)
    → IsOverlay t
    → IsCounted t
    → IsCounted (apply_updates us t)
unfolding apply_updates
apply_updates-IsCounted [] t v k = k
apply_updates-IsCounted (u ∷ us) t v k =
    apply_updates-IsCounted us (apply_update u t) (apply_update-IsUpdated u t v).still
      (apply_update-IsCounted u t v k)

tally_below_none : (test : ℕ → Bool) (n : ℕ) → ((i : ℕ) → test i ≡ false) → 0 ≡ tally_below test n
unfolding tally_below
tally_below_none test zero off = refl
tally_below_none test (suc n) off = rw (off n) (omega (arith, tally_below_none test n off))

new-IsCounted : (t : TopologyOverlay) → IsNew t → IsCounted t
new-IsCounted t n = record {
  open_counted =
      n.none_open
      ∙ tally_below_none (in_state state_open t) t.total_tiles
          (λ i. ap (λ s. same_state s state_open) (n.nothing_known i));
  closed_counted =
      n.none_closed
      ∙ tally_below_none (in_state state_closed t) t.total_tiles
          (λ i. ap (λ s. same_state s state_closed) (n.nothing_known i));
}

one_state :
    (s : TileState)
    → one (same_state s state_open)
        + one (same_state s state_closed)
        + one (same_state s state_unknown)
      ≡ 1
one_state state_open = refl
one_state state_closed = refl
one_state state_unknown = refl

all_states :
    (t : TopologyOverlay) (n : ℕ)
    → tally_below (in_state state_open t) n
        + tally_below (in_state state_closed t) n
        + tally_below (in_state state_unknown t) n
      ≡ n
unfolding tally_below
all_states t zero = refl
all_states t (suc n) = omega (arith, all_states t n, one_state (state_at t n))

abbrev Counted : Type 0
Counted = ℕ × ℕ × ℕ

triple : (a b c a' b' c' : ℕ) → a ≡ a' → b ≡ b' → c ≡ c' → ◌≡◌ {A = Counted} (a, b, c) (a', b', c')
triple a b c a' b' c' e f g = rw (e, f, g) refl

counts_of :
    (t : TopologyOverlay)
    → IsOverlay t
    → IsCounted t
    → counts t ≡ (
      tally_below (in_state state_open t) t.total_tiles,
      tally_below (in_state state_closed t) t.total_tiles,
      tally_below (in_state state_unknown t) t.total_tiles,
    )
unfolding counts
counts_of t v k =
    let all = all_states t t.total_tiles in
    let rest : (t.total_tiles + (2 ^ 32 - t.open_tile_count) + (2 ^ 32 - t.closed_tile_count))
          % 2 ^ 32
        ≡ tally_below (in_state state_unknown t) t.total_tiles =
      omega (arith, all, k.open_counted, k.closed_counted, v.fits.total_fits) in
    triple _ _ _ _ _ _ k.open_counted k.closed_counted rest

-- On a map of sizes below 2 ^ 15 whose number of tiles plus 7 is below 2 ^ 32, after any calls of
-- SetTileState on a new overlay, Counts gives the numbers of the tiles whose bits say open, closed
-- and unknown.
pub counts_lem :
    (width height depth : ℕ) (t : TopologyOverlay) (us : List Update)
    → FitsSizes width height depth
    → new_topology_overlay width height depth ≡ some t
    → let q = apply_updates us t in
      counts q ≡ (
        tally_below (in_state state_open q) q.total_tiles,
        tally_below (in_state state_closed q) q.total_tiles,
        tally_below (in_state state_unknown q) q.total_tiles,
      )
counts_lem width height depth t us fits made =
    let n = new_topology_overlay-IsNew width height depth t fits made in
    counts_of (apply_updates us t) (apply_updates-AreUpdated us t n.is_overlay).ends
      (apply_updates-IsCounted us t n.is_overlay (new-IsCounted t n))
