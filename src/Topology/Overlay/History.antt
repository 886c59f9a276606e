-- ===== src/Topology/Overlay/History.antt =====
-- Any number of calls of SetTileState of internal/topology/overlay.go, and what is read after them.
use mathlib.Core.Path.{subst}
use df_ai.Base.{
  Bool-cases, List, [], ap, arith, false, if◌then◌else◌, inl, inr, ok, refl, same_ℤ, same_ℤ_iff,
  sym, true, ℕ, ℤ, ◌&&◌, ◌<◌, ◌∙◌, ◌∷◌, ◌≡◌,
}
use df_ai.Topology.State.{TileState}
use df_ai.Topology.Overlay.{
  TopologyOverlay, Update, apply_update, apply_updates, bit_index, has_byte, is_outside, kept,
  put_state, set_tile_state, sets_tile, state_at,
}
use df_ai.Topology.Overlay.Places.{bit_index_lem, bit_index_same, inner-Place}
use df_ai.Topology.Overlay.Reads.{IsOverlay, put_state-IsOverlay, put_state_lem, state_at-put_state}

-- The state of a tile as the calls say it, by its coordinates.
abbrev pub said : (x y z : ℤ) → Update → TileState → TileState
said x y z (sets_tile x' y' z' s) before =
    if same_ℤ x' x && same_ℤ y' y && same_ℤ z' z then s else before

abbrev pub latest : (x y z : ℤ) → List Update → TileState → TileState
latest x y z [] before = before
latest x y z (u ∷ us) before = latest x y z us (said x y z u before)

pub has_byte_lem :
    (t : TopologyOverlay) (i : ℕ) → IsOverlay t → i < t.total_tiles → has_byte t i ≡ true
has_byte_lem t i v lt = ground (arith, v.known_long.long, v.data_long.long)

pub set_tile_state_lem :
    (x y z : ℤ) (s : TileState) (t : TopologyOverlay)
    → IsOverlay t
    → is_outside t x y z ≡ false
    → set_tile_state x y z s t ≡ ok (put_state s (bit_index t x y z) t)
unfolding set_tile_state
set_tile_state_lem x y z s t v inner =
    let place = inner-Place t x y z v.fits inner in
    let lt = (bit_index_lem t x y z v.fits place).1 in
    rw (inner, has_byte_lem t (bit_index t x y z) v lt) refl

-- Sizes of the map, which no call changes.
abbrev pub SameMap : TopologyOverlay → TopologyOverlay → Type 0
SameMap q t = (q.width ≡ t.width) × (q.height ≡ t.height) × (q.depth ≡ t.depth)

pub is_outside_same :
    (q t : TopologyOverlay) (x y z : ℤ) → SameMap q t → is_outside q x y z ≡ is_outside t x y z
is_outside_same q t x y z e = rw (e.0, e.1, e.2) refl

bit_index_map :
    (q t : TopologyOverlay) (x y z : ℤ) → SameMap q t → bit_index q x y z ≡ bit_index t x y z
unfolding bit_index
bit_index_map q t x y z e = rw (e.0, e.1) refl

-- What one call does.
pub record IsUpdated (u : Update) (t q : TopologyOverlay) : Type 0 where
  pub same_map : SameMap q t
  pub still : IsOverlay q
  pub reads :
      (x y z : ℤ)
      → is_outside t x y z ≡ false
      → state_at q (bit_index q x y z) ≡ said x y z u (state_at t (bit_index t x y z))

same_tile :
    (x y z x' y' z' : ℤ)
    → (same_ℤ x' x && same_ℤ y' y && same_ℤ z' z) ≡ true
    → (x' ≡ x) × (y' ≡ y) × (z' ≡ z)
same_tile x y z x' y' z' e = (
  (same_ℤ_iff x' x).0 (ground (arith, e)),
  (same_ℤ_iff y' y).0 (ground (arith, e)),
  (same_ℤ_iff z' z).0 (ground (arith, e)),
)

other_tile :
    (t : TopologyOverlay) (x y z x' y' z' : ℤ)
    → is_outside t x' y' z' ≡ true
    → is_outside t x y z ≡ false
    → (same_ℤ x' x && same_ℤ y' y && same_ℤ z' z) ≡ false
other_tile t x y z x' y' z' out inner =
    elim (Bool-cases (same_ℤ x' x && same_ℤ y' y && same_ℤ z' z)) [
      | inl it ↦
          let (ex, ey, ez) = same_tile x y z x' y' z' it in
          let both : is_outside t x' y' z' ≡ is_outside t x y z = rw (ex, ey, ez) refl in
          ground (arith, both)
      | inr other ↦ other
    ]

pub apply_update-IsUpdated :
    (u : Update) (t : TopologyOverlay) → IsOverlay t → IsUpdated u t (apply_update u t)
unfolding apply_update set_tile_state
apply_update-IsUpdated (sets_tile x' y' z' s) t v = elim (Bool-cases (is_outside t x' y' z')) [
  | inl out ↦
      let same : kept t (set_tile_state x' y' z' s t) ≡ t = rw (out) refl in
      subst (IsUpdated (sets_tile x' y' z' s) t) (sym same) (record {
        same_map = (refl, refl, refl);
        still = v;
        reads = λ x y z inner.
            ap (λ b. if b then s else state_at t (bit_index t x y z))
              (sym (other_tile t x y z x' y' z' out inner));
      })
  | inr inner' ↦
      let same = ap (kept t) (set_tile_state_lem x' y' z' s t v inner') in
      let place' = inner-Place t x' y' z' v.fits inner' in
      let lt' = (bit_index_lem t x' y' z' v.fits place').1 in
      let sizes = (put_state_lem s (bit_index t x' y' z') t).0 in
      subst (IsUpdated (sets_tile x' y' z' s) t) (sym same) (record {
        same_map = (sizes.0, sizes.1, sizes.2);
        still = put_state-IsOverlay s (bit_index t x' y' z') t v lt';
        reads = λ x y z inner.
            ap (state_at (put_state s (bit_index t x' y' z') t)) (
              bit_index_map (put_state s (bit_index t x' y' z') t) t x y z
                (sizes.0, sizes.1, sizes.2))
            ∙ state_at-put_state s (bit_index t x' y' z') (bit_index t x y z) t v lt'
            ∙ ap (λ b. if b then s else state_at t (bit_index t x y z))
                (bit_index_same t x' y' z' x y z v.fits place' (inner-Place t x y z v.fits inner));
      })
]

-- What a list of calls does.
pub record AreUpdated (us : List Update) (t q : TopologyOverlay) : Type 0 where
  pub same_maps : SameMap q t
  pub ends : IsOverlay q
  pub all_reads :
      (x y z : ℤ)
      → is_outside t x y z ≡ false
      → state_at q (bit_index q x y z) ≡ latest x y z us (state_at t (bit_index t x y z))

pub apply_updates-AreUpdated :
    (us : List Update) (t : TopologyOverlay) → IsOverlay t → AreUpdated us t (apply_updates us t)
unfolding apply_updates
apply_updates-AreUpdated [] t v = record {
  same_maps = (refl, refl, refl);
  ends = v;
  all_reads = λ x y z inner. refl;
}
apply_updates-AreUpdated (u ∷ us) t v =
    let one = apply_update-IsUpdated u t v in
    let map = one.same_map in
    let rest = apply_updates-AreUpdated us (apply_update u t) one.still in
    let maps = rest.same_maps in
    record {
      same_maps = (maps.0 ∙ map.0, maps.1 ∙ map.1, maps.2 ∙ map.2);
      ends = rest.ends;
      all_reads = λ x y z inner.
          rest.all_reads x y z (is_outside_same (apply_update u t) t x y z map ∙ inner)
          ∙ ap (latest x y z us) (one.reads x y z inner);
    }
