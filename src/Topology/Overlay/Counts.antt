-- ===== src/Topology/Overlay/Counts.antt =====
-- The counters of internal/topology/overlay.go.
use df_ai.Base.{
  ==_iff, Bool, Bool-cases, ap, arith, false, if◌then◌else◌, inl, inr, refl, suc, sym, true, zero,
  ℕ, ◌+◌, ◌<◌, ◌==◌, ◌^◌, ◌∙◌, ◌≡◌, ◌≤◌,
}
use df_ai.Topology.State.{TileState, same_state, state_closed, state_open, state_unknown}
use df_ai.Topology.Overlay.{
  TopologyOverlay, decrement, enter_state, increment, leave_state, put_state, state_at,
}
use df_ai.Topology.Overlay.Reads.{IsOverlay, put_state_lem, state_at-put_state}

abbrev pub one : Bool → ℕ
one true = 1
one false = 0

-- How many numbers below a bound pass a test.
unfoldable pub tally_below : (ℕ → Bool) → ℕ → ℕ
tally_below test zero = 0
tally_below test (suc n) = let rest = tally_below test n in one (test n) + rest

one-le : (b : Bool) → one b ≤ 1
one-le true = omega arith
one-le false = omega arith

pub tally_below-le : (test : ℕ → Bool) (n : ℕ) → tally_below test n ≤ n
unfolding tally_below
tally_below-le test zero = omega arith
tally_below-le test (suc n) = omega (arith, tally_below-le test n, one-le (test n))

-- A test that differs from another at one number at most.
Differs : ℕ → Bool → (ℕ → Bool) → (ℕ → Bool) → Type 0
Differs i b after before = (j : ℕ) → after j ≡ (if i == j then b else before j)

tally_below_same :
    (i : ℕ) (b : Bool) (after before : ℕ → Bool) (n : ℕ)
    → Differs i b after before
    → n ≤ i
    → tally_below after n ≡ tally_below before n
unfolding tally_below Differs
tally_below_same i b after before zero d le = refl
tally_below_same i b after before (suc n) d le =
    let rest = tally_below_same i b after before n d (omega arith) in
    let here : (i == n) ≡ false = ground arith in rw (d n, here, rest) refl

tally_below-Differs :
    (i : ℕ) (b : Bool) (after before : ℕ → Bool) (n : ℕ)
    → Differs i b after before
    → i < n
    → tally_below after n + one (before i) ≡ tally_below before n + one b
unfolding tally_below Differs
tally_below-Differs i b after before zero d lt = absurd (omega arith)
tally_below-Differs i b after before (suc n) d lt = elim (Bool-cases (i == n)) [
  | inl it ↦
      let at : i ≡ n = (==_iff i n).0 it in
      let same = tally_below_same i b after before n d (omega (arith, at)) in
      let here : after n ≡ b = rw (d n, it) refl in rw (here, at) (omega (arith, same))
  | inr other ↦
      let rest = tally_below-Differs i b after before n d (ground (arith, other)) in
      let here : after n ≡ before n = rw (d n, other) refl in rw (here) (omega (arith, rest))
]

abbrev pub in_state : TileState → TopologyOverlay → ℕ → Bool
in_state s t i = same_state (state_at t i) s

pub record IsCounted (t : TopologyOverlay) : Type 0 where
  pub open_counted : t.open_tile_count ≡ tally_below (in_state state_open t) t.total_tiles
  pub closed_counted : t.closed_tile_count ≡ tally_below (in_state state_closed t) t.total_tiles

-- A counter that a tile leaves and enters.
abbrev moved : Bool → Bool → ℕ → ℕ
moved leaves enters c =
    let left = if leaves then decrement c else c in if enters then increment left else left

entered :
    (s old : TileState) (i : ℕ) (t : TopologyOverlay)
    → let q = enter_state s i (leave_state old t) in
      (q.open_tile_count
        ≡ moved (same_state old state_open) (same_state s state_open) t.open_tile_count)
      × (q.closed_tile_count
          ≡ moved (same_state old state_closed) (same_state s state_closed) t.closed_tile_count)
entered state_unknown state_unknown i t = (refl, refl)
entered state_unknown state_open i t = (refl, refl)
entered state_unknown state_closed i t = (refl, refl)
entered state_open state_unknown i t = (refl, refl)
entered state_open state_open i t = (refl, refl)
entered state_open state_closed i t = (refl, refl)
entered state_closed state_unknown i t = (refl, refl)
entered state_closed state_open i t = (refl, refl)
entered state_closed state_closed i t = (refl, refl)

moved_lem :
    (leaves enters : Bool) (before after : ℕ)
    → before < 2 ^ 32
    → after + one leaves ≡ before + one enters
    → after < 2 ^ 32
    → moved leaves enters before ≡ after
moved_lem true true before after fits e small = omega arith
moved_lem true false before after fits e small = omega arith
moved_lem false true before after fits e small = omega arith
moved_lem false false before after fits e small = omega arith

either_state :
    (b : Bool) (s u c : TileState)
    → same_state (if b then s else u) c ≡ (if b then same_state s c else same_state u c)
either_state true s u c = refl
either_state false s u c = refl

tally-put_state :
    (c s : TileState) (i : ℕ) (t : TopologyOverlay)
    → IsOverlay t
    → i < t.total_tiles
    → tally_below (in_state c (put_state s i t)) t.total_tiles + one (in_state c t i)
      ≡ tally_below (in_state c t) t.total_tiles + one (same_state s c)
unfolding Differs
tally-put_state c s i t v lt =
    tally_below-Differs i (same_state s c) (in_state c (put_state s i t)) (in_state c t)
      t.total_tiles
      (λ j.
        ap (λ u. same_state u c) (state_at-put_state s i j t v lt)
        ∙ either_state (i == j) s (state_at t j) c)
      lt

counter_lem :
    (c s : TileState) (i : ℕ) (t : TopologyOverlay) (count : ℕ)
    → IsOverlay t
    → i < t.total_tiles
    → count ≡ tally_below (in_state c t) t.total_tiles
    → moved (in_state c t i) (same_state s c) count
      ≡ tally_below (in_state c (put_state s i t)) (put_state s i t).total_tiles
counter_lem c s i t count v lt counted =
    let total = (put_state_lem s i t).0.3 in
    let fits = v.fits.total_fits in
    let before = tally_below-le (in_state c t) t.total_tiles in
    let after = tally_below-le (in_state c (put_state s i t)) t.total_tiles in
    moved_lem (in_state c t i) (same_state s c) count
      (tally_below (in_state c (put_state s i t)) t.total_tiles)
      (omega (arith, counted, before, fits))
      (tally-put_state c s i t v lt ∙ ap (λ n. n + one (same_state s c)) (sym counted))
      (omega (arith, after, fits))
    ∙ ap (tally_below (in_state c (put_state s i t))) (sym total)

pub put_state-IsCounted :
    (s : TileState) (i : ℕ) (t : TopologyOverlay)
    → IsOverlay t
    → i < t.total_tiles
    → IsCounted t
    → IsCounted (put_state s i t)
unfolding put_state
put_state-IsCounted s i t v lt k = record {
  open_counted =
      (entered s (state_at t i) i t).0
      ∙ counter_lem state_open s i t t.open_tile_count v lt k.open_counted;
  closed_counted =
      (entered s (state_at t i) i t).1
      ∙ counter_lem state_closed s i t t.closed_tile_count v lt k.closed_counted;
}
