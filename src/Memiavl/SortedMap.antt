-- ===== src/Memiavl/SortedMap.antt =====
-- The abstract view of a tree: its leaves in order, an association list sorted by key.
pub mod Laws
pub mod Halves
use Prim.Native.Nat.{Ordering}
use store.Prelude.{ℕ, suc, Option, none, some, List, [], ◌∷◌, All}
use store.Bytes.{Bytes, compare_bytes}
use store.Bytes.Order.{◌≺◌}

-- A key and its value; the value of a nil slice is `none`.
abbrev pub Entry : Type 0
Entry = Bytes × Option Bytes

abbrev pub Above : Bytes → List Entry → Type 0
Above k = All (λ e. k ≺ e.0)

abbrev pub Below : Bytes → List Entry → Type 0
Below k = All (λ e. e.0 ≺ k)

abbrev pub IsSorted : List Entry → Type 0
IsSorted [] = Unit
IsSorted ((k, v) ∷ m) = Above k m × IsSorted m

unfoldable pub lookup : Bytes → List Entry → Option Bytes
lookup k [] = none
lookup k ((j, w) ∷ m) = elim (compare_bytes j k) [ Ordering.eq ↦ w | _ ↦ lookup k m ]

-- How many keys are smaller.
unfoldable pub rank : Bytes → List Entry → ℕ
rank k [] = 0
rank k ((j, w) ∷ m) = elim (compare_bytes j k) [ Ordering.lt ↦ suc (rank k m) | _ ↦ rank k m ]

unfoldable pub insert : Bytes → Option Bytes → List Entry → List Entry
insert k v [] = (k, v) ∷ []
insert k v ((j, w) ∷ m) = elim (compare_bytes k j) [
  | Ordering.lt ↦ (k, v) ∷ (j, w) ∷ m
  | Ordering.eq ↦ (j, v) ∷ m
  | Ordering.gt ↦ (j, w) ∷ insert k v m
]

unfoldable pub delete : Bytes → List Entry → List Entry
delete k [] = []
delete k ((j, w) ∷ m) = elim (compare_bytes j k) [ Ordering.eq ↦ m | _ ↦ (j, w) ∷ delete k m ]
