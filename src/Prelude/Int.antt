-- ===== src/Prelude/Int.antt =====
-- Signed integers over the native numbers.
use Prim.Native.Nat.{ℕ, suc, ◌+◌, ◌-◌}
use mathlib.Core.Bool.{Bool}
use Prim.Native.Nat.{◌≤◌, ◌<◌}
use mathlib.Core.Bool.{true, false}
use mathlib.Core.Path.{◌≡◌}
use native.Mathlib.Omega.{arith}
use store.Prelude.Tests.{ltb, leb, if◌then◌else◌}

-- `negsuc n` is -(n + 1).
pub data ℤ : Type 0 where
  pos : ℕ → ℤ
  negsuc : ℕ → ℤ

abbrev pub pos_part : ℤ → ℕ
pos_part (pos n) = n
pos_part (negsuc n) = 0

abbrev pub neg_part : ℤ → ℕ
neg_part (pos n) = 0
neg_part (negsuc n) = suc n

-- a - b, as an integer.
abbrev pub sub_ℕ : ℕ → ℕ → ℤ
sub_ℕ a b = if leb b a then pos (a - b) else negsuc (b - a - 1)

abbrev pub ltb_ℤ : ℤ → ℤ → Bool
ltb_ℤ a b = ltb (pos_part a + neg_part b) (pos_part b + neg_part a)

abbrev pub leb_ℤ : ℤ → ℤ → Bool
leb_ℤ a b = leb (pos_part a + neg_part b) (pos_part b + neg_part a)

-- What a test on a difference says of its two numbers.
module _ (a b : ℕ) where
  pub le_of_nonneg : leb_ℤ (pos 0) (sub_ℕ a b) ≡ true → b ≤ a
  le_of_nonneg h = ground arith

  pub lt_of_not_nonneg : leb_ℤ (pos 0) (sub_ℕ a b) ≡ false → a < b
  lt_of_not_nonneg h = ground arith

  pub le_of_nonpos : leb_ℤ (sub_ℕ a b) (pos 0) ≡ true → a ≤ b
  le_of_nonpos h = ground arith

  pub lt_of_not_nonpos : leb_ℤ (sub_ℕ a b) (pos 0) ≡ false → b < a
  lt_of_not_nonpos h = ground arith

  pub lt_of_one_lt : ltb_ℤ (pos 1) (sub_ℕ a b) ≡ true → b + 1 < a
  lt_of_one_lt h = ground arith

  pub le_of_not_one_lt : ltb_ℤ (pos 1) (sub_ℕ a b) ≡ false → a ≤ b + 1
  le_of_not_one_lt h = ground arith

  pub lt_of_lt_neg : ltb_ℤ (sub_ℕ a b) (negsuc 0) ≡ true → a + 1 < b
  lt_of_lt_neg h = ground arith

  pub le_of_not_lt_neg : ltb_ℤ (sub_ℕ a b) (negsuc 0) ≡ false → b ≤ a + 1
  le_of_not_lt_neg h = ground arith
