-- ===== src/Base/Int.antt =====
-- Signed integers over the native numbers, and their two's complement bit patterns.
use Prim.Native.Nat.{ℕ, suc, ◌+◌, ◌-◌, ◌%◌, ◌<◌}
use mathlib.Core.Path.{◌≡◌}
use mathlib.Core.Bool.{Bool, true, false}
use mathlib.Core.Logic.{◌↔◌}
use native.Mathlib.Nat.{mod-eq_of_lt}
use native.Mathlib.Omega.{arith}
use df_ai.Base.Tests.{leb, ltb, if◌then◌else◌, ◌==◌}

-- `negsuc n` is -(n + 1).
pub data ℤ : Type 0 where
  pos : ℕ → ℤ
  negsuc : ℕ → ℤ

abbrev pub pos_part : ℤ → ℕ
pos_part (pos n) = n
pos_part (negsuc n) = 0

abbrev pub neg_part : ℤ → ℕ
neg_part (pos n) = 0
neg_part (negsuc n) = suc n

-- a - b, as an integer.
abbrev pub sub_ℕ : ℕ → ℕ → ℤ
sub_ℕ a b = if leb b a then pos (a - b) else negsuc (b - a - 1)

-- The test a < b.
abbrev pub ltb_ℤ : ℤ → ℤ → Bool
ltb_ℤ a b = ltb (pos_part a + neg_part b) (pos_part b + neg_part a)

infixl 65 ◌+ℤ◌
unfoldable pub ◌+ℤ◌ : ℤ → ℤ → ℤ
a +ℤ b = sub_ℕ (pos_part a + pos_part b) (neg_part a + neg_part b)

abbrev pub same_ℤ : ℤ → ℤ → Bool
same_ℤ (pos m) (pos n) = m == n
same_ℤ (negsuc m) (negsuc n) = m == n
same_ℤ a b = false

pub same_ℤ_iff : (a b : ℤ) → (same_ℤ a b ≡ true) ↔ (a ≡ b)
same_ℤ_iff (pos m) (pos n) = ground arith
same_ℤ_iff (negsuc m) (negsuc n) = ground arith
same_ℤ_iff (pos m) (negsuc n) = ground arith
same_ℤ_iff (negsuc m) (pos n) = ground arith

-- `half` is 2 ^ (w - 1) for a word of w bits.
abbrev pub FitsSigned : ℕ → ℤ → Type 0
FitsSigned half (pos n) = n < half
FitsSigned half (negsuc n) = n < half

-- The bit pattern of an integer in a word of which `half` is the sign bit.
unfoldable pub to_word : ℕ → ℤ → ℕ
to_word half (pos n) = n % (half + half)
to_word half (negsuc n) = half + half - 1 - n % (half + half)

unfoldable pub of_word : ℕ → ℕ → ℤ
of_word half w = if ltb w half then pos w else negsuc (half + half - 1 - w)

pub to_word-lt : (half : ℕ) (z : ℤ) → 0 < half → to_word half z < half + half
unfolding to_word
to_word-lt half (pos n) h = omega arith
to_word-lt half (negsuc n) h = omega arith

pub of_word-to_word : (half : ℕ) (z : ℤ) → FitsSigned half z → of_word half (to_word half z) ≡ z
unfolding of_word to_word
of_word-to_word half (pos n) h =
    let m : n % (half + half) ≡ n = mod-eq_of_lt (omega arith) in rw m (ground arith)
of_word-to_word half (negsuc n) h =
    let m : n % (half + half) ≡ n = mod-eq_of_lt (omega arith) in rw m (ground arith)
