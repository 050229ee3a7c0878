-- ===== src/Extsort/Merge/Order.antt =====
-- Orders given by a test, sorted lists, and what container/heap and sort.Slice document.
use store.Prelude.{Bool, true, false, List, [], ◌∷◌, ◌≡◌, All, All-imp}
use store.Bytes.{Bytes}
use store.Prelude.Shuffles.{Shuffle}
use store.Extsort.Merge.{HeapOps}

-- A strict weak order.
pub record IsWeakOrder {A : Type 0} (less : A → A → Bool) : Type 0 where
  pub asym : (x y : A) → less x y ≡ true → less y x ≡ false
  pub trans : (x y z : A) → less y x ≡ false → less z y ≡ false → less z x ≡ false

module _ {A : Type 0} (less : A → A → Bool) where
  -- Nothing in the list is less than `x`.
  abbrev pub IsLeast : A → List A → Type 0
  IsLeast x = All (λ y. less y x ≡ false)

  abbrev pub IsSorted : List A → Type 0
  IsSorted [] = Unit
  IsSorted (x ∷ xs) = IsLeast x xs × IsSorted xs

  pub IsLeast-trans :
      IsWeakOrder less → (x y : A) (xs : List A) → less y x ≡ false → IsLeast y xs → IsLeast x xs
  IsLeast-trans order x y xs h = All-imp (λ z p. order.trans x y z h p) xs

-- The heap functions keep the elements and a heap, whose first element is a least one. `Fix` and
-- `Remove` act on a heap whose first element has been changed.
pub record HeapLaws (heap : HeapOps) : Type 1 where
  pub IsHeap : {A : Type 0} → (A → A → Bool) → List A → Type 0
  pub first :
      {A : Type 0} (less : A → A → Bool)
      → IsWeakOrder less
      → (x : A) (xs : List A) → IsHeap less (x ∷ xs)
      → IsLeast less x xs
  pub init-IsHeap :
      {A : Type 0} (less : A → A → Bool)
      → IsWeakOrder less
      → (xs : List A) → IsHeap less (heap.init less xs)
  pub init_perm :
      {A : Type 0} (less : A → A → Bool) → (xs : List A) → Shuffle xs (heap.init less xs)
  pub remove_first-IsHeap :
      {A : Type 0} (less : A → A → Bool)
      → IsWeakOrder less
      → (x y : A) (xs : List A) → IsHeap less (x ∷ xs)
      → IsHeap less (heap.remove_first less (y ∷ xs))
  pub remove_first_perm :
      {A : Type 0} (less : A → A → Bool) (y : A) (xs : List A)
      → Shuffle xs (heap.remove_first less (y ∷ xs))
  pub fix_first-IsHeap :
      {A : Type 0} (less : A → A → Bool)
      → IsWeakOrder less
      → (x y : A) (xs : List A) → IsHeap less (x ∷ xs)
      → IsHeap less (heap.fix_first less (y ∷ xs))
  pub fix_first_perm :
      {A : Type 0} (less : A → A → Bool) (y : A) (xs : List A)
      → Shuffle (y ∷ xs) (heap.fix_first less (y ∷ xs))

-- `sort.Slice`
pub record SortLaws (sort : (Bytes → Bytes → Bool) → List Bytes → List Bytes) : Type 0 where
  pub sort-IsSorted :
      (less : Bytes → Bytes → Bool)
      → IsWeakOrder less
      → (xs : List Bytes) → IsSorted less (sort less xs)
  pub sort_perm : (less : Bytes → Bytes → Bool) (xs : List Bytes) → Shuffle xs (sort less xs)
