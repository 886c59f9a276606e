-- ===== src/Topology/Overlay/Reads.antt =====
-- What SetTileState of internal/topology/overlay.go does to what is read.
use df_ai.Base.{
  Bool, Bool-cases, ap, arith, false, if◌then◌else◌, inl, inr, refl, true, ℕ, ◌<◌, ◌==◌, ◌∙◌, ◌≡◌,
}
use df_ai.Topology.Bits.{IsBits, get_bit, get_bit-put_bit, put_bit, put_bit-IsBits}
use df_ai.Topology.State.{TileState, state_closed, state_open, state_unknown}
use df_ai.Topology.Overlay.{TopologyOverlay, enter_state, leave_state, put_state, state_at}
use df_ai.Topology.Overlay.Places.{FitsMap}

-- The overlays that the code makes: the arrays are long enough, and an open tile is known.
pub record IsOverlay (t : TopologyOverlay) : Type 0 where
  pub fits : FitsMap t
  pub data_long : IsBits t.total_tiles t.data_bits
  pub known_long : IsBits t.total_tiles t.known_bits
  pub open_known : (i : ℕ) → get_bit t.data_bits i ≡ true → get_bit t.known_bits i ≡ true

abbrev FitsAs : TopologyOverlay → TopologyOverlay → Type 0
FitsAs t q =
    (q.width ≡ t.width)
    × (q.height ≡ t.height)
    × (q.depth ≡ t.depth)
    × (q.total_tiles ≡ t.total_tiles)

-- The bits that a state stands for.
abbrev known_of : TileState → Bool
known_of state_unknown = false
known_of s = true

abbrev open_of : TileState → Bool
open_of state_open = true
open_of s = false

abbrev state_of : Bool → Bool → TileState
state_of known floor = if known then (if floor then state_open else state_closed) else state_unknown

state_of_lem : (s : TileState) → state_of (known_of s) (open_of s) ≡ s
state_of_lem state_unknown = refl
state_of_lem state_open = refl
state_of_lem state_closed = refl

leave_lem :
    (s : TileState) (t : TopologyOverlay)
    → FitsAs t (leave_state s t)
      × ((leave_state s t).known_bits ≡ t.known_bits)
      × ((leave_state s t).data_bits ≡ t.data_bits)
leave_lem state_unknown t = ((refl, refl, refl, refl), refl, refl)
leave_lem state_open t = ((refl, refl, refl, refl), refl, refl)
leave_lem state_closed t = ((refl, refl, refl, refl), refl, refl)

enter_lem :
    (s : TileState) (i : ℕ) (t : TopologyOverlay)
    → FitsAs t (enter_state s i t)
      × ((enter_state s i t).known_bits ≡ put_bit (known_of s) i t.known_bits)
      × ((enter_state s i t).data_bits ≡ put_bit (open_of s) i t.data_bits)
enter_lem state_unknown i t = ((refl, refl, refl, refl), refl, refl)
enter_lem state_open i t = ((refl, refl, refl, refl), refl, refl)
enter_lem state_closed i t = ((refl, refl, refl, refl), refl, refl)

pub put_state_lem :
    (s : TileState) (i : ℕ) (t : TopologyOverlay)
    → FitsAs t (put_state s i t)
      × ((put_state s i t).known_bits ≡ put_bit (known_of s) i t.known_bits)
      × ((put_state s i t).data_bits ≡ put_bit (open_of s) i t.data_bits)
unfolding put_state
put_state_lem s i t =
    let (fl, kl, dl) = leave_lem (state_at t i) t in
    let (fe, ke, de) = enter_lem s i (leave_state (state_at t i) t) in
    (
      (fe.0 ∙ fl.0, fe.1 ∙ fl.1, fe.2 ∙ fl.2, fe.3 ∙ fl.3),
      ke ∙ ap (put_bit (known_of s) i) kl,
      de ∙ ap (put_bit (open_of s) i) dl,
    )

pub known-put_state :
    (s : TileState) (i j : ℕ) (t : TopologyOverlay)
    → IsOverlay t
    → i < t.total_tiles
    → get_bit (put_state s i t).known_bits j
      ≡ (if i == j then known_of s else get_bit t.known_bits j)
known-put_state s i j t v lt =
    ap (λ b. get_bit b j) (put_state_lem s i t).1
    ∙ get_bit-put_bit t.total_tiles (known_of s) i j t.known_bits lt v.known_long

pub data-put_state :
    (s : TileState) (i j : ℕ) (t : TopologyOverlay)
    → IsOverlay t
    → i < t.total_tiles
    → get_bit (put_state s i t).data_bits j ≡ (if i == j then open_of s else get_bit t.data_bits j)
data-put_state s i j t v lt =
    ap (λ b. get_bit b j) (put_state_lem s i t).2
    ∙ get_bit-put_bit t.total_tiles (open_of s) i j t.data_bits lt v.data_long

pub state_at-put_state :
    (s : TileState) (i j : ℕ) (t : TopologyOverlay)
    → IsOverlay t
    → i < t.total_tiles
    → state_at (put_state s i t) j ≡ (if i == j then s else state_at t j)
unfolding state_at
state_at-put_state s i j t v lt =
    rw (known-put_state s i j t v lt, data-put_state s i j t v lt)
      (elim (Bool-cases (i == j)) [
        | inl it ↦ rw (it) (state_of_lem s)
        | inr other ↦ rw (other) refl
      ])

open_is_known : (s : TileState) → open_of s ≡ true → known_of s ≡ true
open_is_known state_open h = refl
open_is_known state_closed h = refl
open_is_known state_unknown h = h

pub put_state-IsOverlay :
    (s : TileState) (i : ℕ) (t : TopologyOverlay)
    → IsOverlay t
    → i < t.total_tiles
    → IsOverlay (put_state s i t)
put_state-IsOverlay s i t v lt =
    let (f, k, d) = put_state_lem s i t in
    let w = f.0 in
    let h = f.1 in
    let z = f.2 in
    let n = f.3 in
    record {
      fits = record {
        width_fits = omega (arith, w, v.fits.width_fits);
        height_fits = omega (arith, h, v.fits.height_fits);
        depth_fits = omega (arith, z, v.fits.depth_fits);
        total = n ∙ v.fits.total ∙ rw (w, h, z) refl;
        total_fits = omega (arith, n, v.fits.total_fits);
      };
      data_long = rw (n, d) (put_bit-IsBits t.total_tiles (open_of s) i t.data_bits v.data_long);
      known_long =
          rw (n, k) (put_bit-IsBits t.total_tiles (known_of s) i t.known_bits v.known_long);
      open_known = λ j floor. ground (
        arith,
        known-put_state s i j t v lt,
        data-put_state s i j t v lt,
        open_is_known s,
        v.open_known j,
      );
    }
