-- ===== src/Topology/Overlay/New.antt =====
-- NewTopologyOverlay of internal/topology/overlay.go.
use mathlib.Core.Path.{subst}
use df_ai.Base.{
  All, Bool, ap, arith, false, get_elem?, if◌then◌else◌, length, none, refl, some, suc, sym, true,
  zero, ℕ, ◌%◌, ◌*◌, ◌+◌, ◌/◌, ◌<◌, ◌==◌, ◌^◌, ◌||◌, ◌∙◌, ◌≡◌, ◌≤◌,
}
use df_ai.Topology.Bits.{IsBits, byte_bit, get_bit}
use df_ai.Topology.State.{state_unknown}
use df_ai.Topology.Overlay.{
  TopologyOverlay, bytes_needed, empty_overlay, new_topology_overlay, state_at, tile_total,
  zero_bytes,
}
use df_ai.Topology.Overlay.Reads.{IsOverlay}

length-zero_bytes : (n : ℕ) → length (zero_bytes n) ≡ n
unfolding zero_bytes
length-zero_bytes zero = refl
length-zero_bytes (suc n) = ap suc (length-zero_bytes n)

zero_bytes-small : (n : ℕ) → All (λ b. b < 256) (zero_bytes n)
unfolding zero_bytes
zero_bytes-small zero = tt
zero_bytes-small (suc n) = (omega arith, zero_bytes-small n)

get_elem?-zero_bytes : (n i o : ℕ) → byte_bit (get_elem? (zero_bytes n) i) o ≡ false
unfolding zero_bytes
get_elem?-zero_bytes zero i o = refl
get_elem?-zero_bytes (suc n) zero o = ground arith
get_elem?-zero_bytes (suc n) (suc i) o = get_elem?-zero_bytes n i o

get_bit-zero_bytes : (n i : ℕ) → get_bit (zero_bytes n) i ≡ false
unfolding get_bit
get_bit-zero_bytes n i = get_elem?-zero_bytes n (i / 8) (i % 8)

-- The sizes of a map that int16 coordinates reach and uint32 indexes count.
abbrev pub FitsSizes : (width height depth : ℕ) → Type 0
FitsSizes width height depth =
    (width < 2 ^ 15) × (height < 2 ^ 15) × (depth < 2 ^ 15) × (depth * height * width + 7 < 2 ^ 32)

-- A new overlay: nothing is known.
pub record IsNew (t : TopologyOverlay) : Type 0 where
  pub is_overlay : IsOverlay t
  pub none_open : t.open_tile_count ≡ 0
  pub none_closed : t.closed_tile_count ≡ 0
  pub nothing_known : (i : ℕ) → state_at t i ≡ state_unknown

product-bound : (a b m : ℕ) → b ≤ m → a * b ≤ a * m
product-bound zero b m h = omega arith
product-bound (suc a) b m h = omega (arith, product-bound a b m h)

swapped : (a b c : ℕ) → a * b * c ≡ c * b * a
swapped a b c = omega arith

tile_total_lem :
    (width height depth : ℕ)
    → FitsSizes width height depth
    → tile_total width height depth ≡ depth * height * width
tile_total_lem width height depth fits =
    let layer = product-bound width height (2 ^ 15) (omega (arith, fits.1)) in
    let small : width * height % 2 ^ 32 ≡ width * height = omega (arith, layer, fits.0) in
    let turned = swapped width height depth in
    ap (λ n. n * depth % 2 ^ 32) small ∙ omega (arith, turned, fits.3)

zero_bytes-IsBits :
    (total : ℕ) → total + 7 < 2 ^ 32 → IsBits total (zero_bytes (bytes_needed total))
zero_bytes-IsBits total fits = record {
  long = omega (arith, length-zero_bytes (bytes_needed total));
  small = zero_bytes-small (bytes_needed total);
}

empty_overlay-IsNew :
    (width height depth : ℕ)
    → FitsSizes width height depth
    → IsNew (empty_overlay width height depth)
unfolding state_at
empty_overlay-IsNew width height depth fits =
    let total = tile_total_lem width height depth fits in
    let small : tile_total width height depth + 7 < 2 ^ 32 = omega (arith, total, fits.3) in
    let n = bytes_needed (tile_total width height depth) in
    record {
      is_overlay = record {
        fits = record {
          width_fits = fits.0;
          height_fits = fits.1;
          depth_fits = fits.2;
          total = total;
          total_fits = small;
        };
        data_long = zero_bytes-IsBits (tile_total width height depth) small;
        known_long = zero_bytes-IsBits (tile_total width height depth) small;
        open_known = λ i floor. get_bit-zero_bytes n i ∙ sym (get_bit-zero_bytes n i) ∙ floor;
      };
      none_open = refl;
      none_closed = refl;
      nothing_known = λ i. rw (get_bit-zero_bytes n i) refl;
    }

made_is :
    (b : Bool) (made t : TopologyOverlay) → (if b then none else some made) ≡ some t → made ≡ t
made_is false made t e = ground (arith, e)
made_is true made t e = ground (arith, e)

pub new_topology_overlay-IsNew :
    (width height depth : ℕ) (t : TopologyOverlay)
    → FitsSizes width height depth
    → new_topology_overlay width height depth ≡ some t
    → IsNew t
unfolding new_topology_overlay
new_topology_overlay-IsNew width height depth t fits made =
    subst IsNew
      (made_is (width == 0 || height == 0 || depth == 0) (empty_overlay width height depth) t made)
      (empty_overlay-IsNew width height depth fits)
