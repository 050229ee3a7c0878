-- ===== src/Bytes.antt =====
-- Go's byte slices and `bytes.Compare`. A byte is a number below 256; a slice that may be nil is an
-- `Option Bytes`, with `none` for nil.
pub mod Order
use Prim.Native.Nat.{compare, Ordering}
use store.Prelude.{ℕ, List, [], ◌∷◌}

abbrev pub Bytes : Type 0
Bytes = List ℕ

-- `bytes.Compare`: -1, 0 and 1 are `lt`, `eq` and `gt`.
unfoldable pub compare_bytes : Bytes → Bytes → Ordering
compare_bytes [] [] = Ordering.eq
compare_bytes [] (b ∷ br) = Ordering.lt
compare_bytes (a ∷ ar) [] = Ordering.gt
compare_bytes (a ∷ ar) (b ∷ br) = elim (compare a b) [
  | Ordering.lt ↦ Ordering.lt
  | Ordering.eq ↦ compare_bytes ar br
  | Ordering.gt ↦ Ordering.gt
]
