-- ===== src/Plan/Node/Tiles.antt =====
-- Region.TileCount of internal/plan/types.go and the sizes of the region.
use df_ai.Plan.Node.{extent, is_negative, plus_one, region_tile_count, sub_i16}
use native.Mathlib.Decide.{dec_le}
use df_ai.Base.{
  arith, false, if◌then◌else◌, ltb, negsuc, of_word, pos, pos_part, refl, suc, to_word, true, zero,
  ℕ, ℤ, ◌%◌, ◌*◌, ◌+◌, ◌-◌, ◌<◌, ◌^◌, ◌||◌, ◌∙◌, ◌≡◌, ◌≤◌,
}

below_zero : (n : ℕ) → pos_part (plus_one (negsuc n)) ≡ 0
below_zero zero = refl
below_zero (suc n) = refl

extent_up :
    (a b : ℕ) → a < 2 ^ 15 → b < 2 ^ 15 → a ≤ b → pos_part (extent (pos a) (pos b)) ≡ suc b - a
unfolding extent sub_i16 of_word to_word
extent_up a b ha hb le =
    let word : (b % 65536 + 65536 - a % 65536) % 65536 ≡ b - a = omega arith in
    let small : ltb (b - a) 32768 ≡ true = ground arith in rw (word, small) (omega arith)

extent_down :
    (a b : ℕ) → a < 2 ^ 15 → b < 2 ^ 15 → b < a → pos_part (extent (pos a) (pos b)) ≡ suc b - a
unfolding extent sub_i16 of_word to_word
extent_down a b ha hb lt =
    let word : (b % 65536 + 65536 - a % 65536) % 65536 ≡ 65536 - (a - b) = omega arith in
    let large : ltb (65536 - (a - b)) 32768 ≡ false = ground arith in
    let none_left : 0 ≡ suc b - a = omega arith in rw (word, large) (below_zero _ ∙ none_left)

extent_lem : (a b : ℕ) → a < 2 ^ 15 → b < 2 ^ 15 → pos_part (extent (pos a) (pos b)) ≡ suc b - a
extent_lem a b ha hb = elim (dec_le a b) [
  | yes le ↦ extent_up a b ha hb le
  | no gt ↦ extent_down a b ha hb (omega arith)
]

product :
    (dx dy dz : ℤ)
    → (if is_negative dx || is_negative dy || is_negative dz
        then 0
        else pos_part dx * pos_part dy * pos_part dz)
      ≡ pos_part dx * pos_part dy * pos_part dz
product (pos x) (pos y) (pos z) = refl
product (pos x) (pos y) (negsuc z) = omega arith
product (pos x) (negsuc y) dz = omega arith
product (negsuc x) dy dz = omega arith

-- For a region with int16 coordinates that are not negative, TileCount is the product of its three
-- sizes, each from the first to the last coordinate with both counted, and 0 where the last is
-- before the first.
pub region_tile_count_lem :
    (x1 y1 z1 x2 y2 z2 : ℕ)
    → x1 < 2 ^ 15
    → y1 < 2 ^ 15
    → z1 < 2 ^ 15
    → x2 < 2 ^ 15
    → y2 < 2 ^ 15
    → z2 < 2 ^ 15
    → region_tile_count
        (record { x1 = pos x1; y1 = pos y1; z1 = pos z1; x2 = pos x2; y2 = pos y2; z2 = pos z2 })
      ≡ (suc x2 - x1) * (suc y2 - y1) * (suc z2 - z1)
unfolding region_tile_count
region_tile_count_lem x1 y1 z1 x2 y2 z2 a b c d e f =
    product (extent (pos x1) (pos x2)) (extent (pos y1) (pos y2)) (extent (pos z1) (pos z2))
    ∙ rw (extent_lem x1 x2 a d, extent_lem y1 y2 b e, extent_lem z1 z2 c f) refl
