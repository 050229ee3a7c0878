-- ===== src/Bytes/Order.antt =====
-- The order of `bytes.Compare` is a strict total order.
use Prim.Native.Nat.{Ordering}
use store.Prelude.{[], ◌∷◌, ◌≡◌, ◌≢◌, ◌⊎◌, inl, inr, refl, arith}
use store.Bytes.{Bytes, compare_bytes}

infix 4 ◌≺◌ ◌≼◌
abbrev pub ◌≺◌ : Bytes → Bytes → Type 0
a ≺ b = compare_bytes a b ≡ Ordering.lt

abbrev pub ◌≼◌ : Bytes → Bytes → Type 0
a ≼ b = compare_bytes b a ≢ Ordering.lt

pub compare_bytes_refl : (a : Bytes) → compare_bytes a a ≡ Ordering.eq
unfolding compare_bytes
compare_bytes_refl [] = refl
compare_bytes_refl (a ∷ ar) = ground (arith, compare_bytes_refl ar)

pub eq_of_compare_bytes : (a b : Bytes) → compare_bytes a b ≡ Ordering.eq → a ≡ b
unfolding compare_bytes
eq_of_compare_bytes [] [] h = refl
eq_of_compare_bytes [] (b ∷ br) h = ground arith
eq_of_compare_bytes (a ∷ ar) [] h = ground arith
eq_of_compare_bytes (a ∷ ar) (b ∷ br) h = ground (arith, eq_of_compare_bytes ar br)

pub gt_of_lt : (a b : Bytes) → a ≺ b → compare_bytes b a ≡ Ordering.gt
unfolding compare_bytes
gt_of_lt [] [] h = ground arith
gt_of_lt [] (b ∷ br) h = refl
gt_of_lt (a ∷ ar) [] h = ground arith
gt_of_lt (a ∷ ar) (b ∷ br) h = ground (arith, gt_of_lt ar br)

pub lt_of_gt : (a b : Bytes) → compare_bytes a b ≡ Ordering.gt → b ≺ a
unfolding compare_bytes
lt_of_gt [] [] h = ground arith
lt_of_gt [] (b ∷ br) h = ground arith
lt_of_gt (a ∷ ar) [] h = refl
lt_of_gt (a ∷ ar) (b ∷ br) h = ground (arith, lt_of_gt ar br)

pub lt_trans : (a b c : Bytes) → a ≺ b → b ≺ c → a ≺ c
unfolding compare_bytes
lt_trans [] [] c p q = ground arith
lt_trans [] (b ∷ br) [] p q = ground arith
lt_trans [] (b ∷ br) (c ∷ cr) p q = refl
lt_trans (a ∷ ar) [] c p q = ground arith
lt_trans (a ∷ ar) (b ∷ br) [] p q = ground arith
lt_trans (a ∷ ar) (b ∷ br) (c ∷ cr) p q = ground (arith, lt_trans ar br cr)

pub lt_irrefl : (a : Bytes) → a ≺ a → ⊥
lt_irrefl a h = ground (arith, compare_bytes_refl a)

pub lt_le_trans : (a b c : Bytes) → a ≺ b → b ≼ c → a ≺ c
lt_le_trans a b c p q = ground (arith, eq_of_compare_bytes c b, lt_of_gt c b, lt_trans a b c)

-- The three outcomes of a comparison, for a case split that keeps the equation.
pub Ordering-cases : (c : Ordering) → (c ≡ Ordering.lt) ⊎ ((c ≡ Ordering.eq) ⊎ (c ≡ Ordering.gt))
Ordering-cases Ordering.lt = inl refl
Ordering-cases Ordering.eq = inr (inl refl)
Ordering-cases Ordering.gt = inr (inr refl)
