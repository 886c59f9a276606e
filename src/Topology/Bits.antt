-- ===== src/Topology/Bits.antt =====
-- The bit arrays of internal/topology/overlay.go: bit `i` is bit `i % 8` of byte `i / 8`.
use Prim.Native.Nat.{bit_or, bit_and}
use mathlib.Core.Option
use df_ai.Base.{
  ==_iff, All, All-get_elem?, All-modify, Bool, Bool-cases, List, Option, [], ap, arith, false,
  get_elem?, get_elem?-modify, if◌then◌else◌, inl, inr, length, length-modify, ltb, ltb→lt, modify,
  none, not, refl, some, suc, sym, true, zero, ℕ, ◌%◌, ◌&&◌, ◌*◌, ◌-◌, ◌/◌, ◌<◌, ◌==◌, ◌^◌, ◌∙◌,
  ◌∷◌, ◌≡◌, ◌≤◌,
}

-- `(b >> o) & 1`
abbrev pub bit_of : ℕ → ℕ → Bool
bit_of b o = b / 2 ^ o % 2 == 1

-- `b |= 1 << o`
unfoldable pub set_bit : ℕ → ℕ → ℕ
set_bit o b = bit_or b (2 ^ o)

-- `b &^= 1 << o`
unfoldable pub clear_bit : ℕ → ℕ → ℕ
clear_bit o b = bit_and b (255 - 2 ^ o)

abbrev pub write_bit : Bool → ℕ → ℕ → ℕ
write_bit true o b = set_bit o b
write_bit false o b = clear_bit o b

-- Whether a test passes for the numbers below a bound.
passes : (ℕ → Bool) → ℕ → Bool
passes test zero = true
passes test (suc bound) = if test bound then passes test bound else false

passes_at : (test : ℕ → Bool) (k bound : ℕ) → k < bound → passes test bound ≡ true → test k ≡ true
unfolding passes
passes_at test k zero below all = absurd (omega arith)
passes_at test k (suc bound) below all = ground (arith, passes_at test k bound)

abbrev same_bool : Bool → Bool → Bool
same_bool true b = b
same_bool false b = not b

abbrev right_bit : Bool → ℕ → ℕ → ℕ → Bool
right_bit v o b o' = same_bool (bit_of (write_bit v o b) o') (if o == o' then v else bit_of b o')

same_bool_sound : (a b : Bool) → same_bool a b ≡ true → a ≡ b
same_bool_sound true b h = ground arith
same_bool_sound false b h = ground arith

abbrev right_byte : Bool → ℕ → Bool
right_byte v b = passes (λ o. passes (right_bit v o b) 8 && ltb (write_bit v o b) 256) 8

all_right : (v : Bool) → passes (right_byte v) 256 ≡ true
unfolding passes set_bit clear_bit
all_right true = refl
all_right false = refl

both_pass : (a b : Bool) → (a && b) ≡ true → (a ≡ true) × (b ≡ true)
both_pass a b h = (ground arith, ground arith)

right_at :
    (v : Bool) (b o : ℕ)
    → b < 256
    → o < 8
    → (passes (right_bit v o b) 8 ≡ true) × (ltb (write_bit v o b) 256 ≡ true)
right_at v b o hb ho = both_pass (passes (right_bit v o b) 8) (ltb (write_bit v o b) 256) (
    passes_at (λ k. passes (right_bit v k b) 8 && ltb (write_bit v k b) 256) o 8 ho
      (passes_at (right_byte v) b 256 hb (all_right v)))

pub right_bit_lem :
    (v : Bool) (b o o' : ℕ)
    → b < 256
    → o < 8
    → o' < 8
    → bit_of (write_bit v o b) o' ≡ (if o == o' then v else bit_of b o')
right_bit_lem v b o o' hb ho ho' =
    same_bool_sound (bit_of (write_bit v o b) o') (if o == o' then v else bit_of b o')
      (passes_at (right_bit v o b) o' 8 ho' (right_at v b o hb ho).0)

write_bit-lt : (v : Bool) (o b : ℕ) → b < 256 → o < 8 → write_bit v o b < 256
write_bit-lt v o b hb ho = ltb→lt (write_bit v o b) 256 (right_at v b o hb ho).1

abbrev pub byte_bit : Option ℕ → ℕ → Bool
byte_bit none o = false
byte_bit (some b) o = bit_of b o

-- A bit of an array; beyond its end it counts as not set.
unfoldable pub get_bit : List ℕ → ℕ → Bool
get_bit bytes i = byte_bit (get_elem? bytes (i / 8)) (i % 8)

unfoldable pub put_bit : Bool → ℕ → List ℕ → List ℕ
unfolding set_bit clear_bit
put_bit v i bytes = modify (i / 8) (write_bit v (i % 8)) bytes

-- An array of bytes with at least `n` bits.
pub record IsBits (n : ℕ) (bytes : List ℕ) : Type 0 where
  pub long : n ≤ 8 * length bytes
  pub small : All (λ b. b < 256) bytes

pub put_bit-IsBits :
    (n : ℕ) (v : Bool) (i : ℕ) (bytes : List ℕ) → IsBits n bytes → IsBits n (put_bit v i bytes)
unfolding put_bit
put_bit-IsBits n v i bytes h = record {
  long = omega (arith, h.long, length-modify (i / 8) (write_bit v (i % 8)) bytes);
  small =
      All-modify (λ b. b < 256) (i / 8) (write_bit v (i % 8)) bytes
        (λ b found lt. write_bit-lt v (i % 8) b lt (omega arith)) h.small;
}

get_elem?_in_range :
    (bytes : List ℕ) (k : ℕ) → k < length bytes → (b : ℕ) × (get_elem? bytes k ≡ some b)
get_elem?_in_range [] k h = absurd (omega arith)
get_elem?_in_range (b ∷ bytes) zero h = (b, refl)
get_elem?_in_range (b ∷ bytes) (suc k) h = get_elem?_in_range bytes k (omega arith)

same_place : (i j : ℕ) → (i / 8 == j / 8) ≡ true → (i % 8 == j % 8) ≡ (i == j)
same_place i j e = ground arith

other_place : (i j : ℕ) → (i / 8 == j / 8) ≡ false → (i == j) ≡ false
other_place i j e = ground arith

after_write :
    (v : Bool) (i j b : ℕ) (o : Option ℕ)
    → b < 256
    → ((i / 8 == j / 8) ≡ true → o ≡ some b)
    → byte_bit (if i / 8 == j / 8 then Option.map (write_bit v (i % 8)) o else o) (j % 8)
      ≡ (if i == j then v else byte_bit o (j % 8))
after_write v i j b o small there = elim (Bool-cases (i / 8 == j / 8)) [
  | inl it ↦
      rw (it, there it)
        (right_bit_lem v b (i % 8) (j % 8) small (omega arith) (omega arith)
          ∙ ap (λ c. if c then v else bit_of b (j % 8)) (same_place i j it))
  | inr other ↦ rw (other, other_place i j other) refl
]

pub get_bit-put_bit :
    (n : ℕ) (v : Bool) (i j : ℕ) (bytes : List ℕ)
    → i < n
    → IsBits n bytes
    → get_bit (put_bit v i bytes) j ≡ (if i == j then v else get_bit bytes j)
unfolding get_bit put_bit
get_bit-put_bit n v i j bytes lt h =
    let (b, found) = get_elem?_in_range bytes (i / 8) (omega (arith, h.long)) in
    let small = All-get_elem? (λ c. c < 256) bytes (i / 8) h.small found in
    ap (λ o. byte_bit o (j % 8)) (get_elem?-modify (i / 8) (j / 8) (write_bit v (i % 8)) bytes)
    ∙ after_write v i j b (get_elem? bytes (j / 8)) small
        (λ it. ap (get_elem? bytes) (sym ((==_iff (i / 8) (j / 8)).0 it)) ∙ found)
