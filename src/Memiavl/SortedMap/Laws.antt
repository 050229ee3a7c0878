-- ===== src/Memiavl/SortedMap/Laws.antt =====
-- The sorted association list as a map: sortedness, and reading back what was written.
use store.Prelude.{
  Option, none, List, [], ◌∷◌, ◌++◌, All, All-imp, All-append, All-append_inv, ◌≡◌, ◌≢◌, refl,
  arith,
}
use store.Bytes.{Bytes}
use store.Bytes.Order.{◌≺◌, compare_bytes_refl, eq_of_compare_bytes, gt_of_lt, lt_of_gt, lt_trans}
use store.Memiavl.SortedMap.{Entry, Above, Below, IsSorted, lookup, insert, delete}

pub Above-trans : (j k : Bytes) (m : List Entry) → j ≺ k → Above k m → Above j m
Above-trans j k m p = All-imp (λ e q. lt_trans j k e.0 p q) m

pub Below-trans : (j k : Bytes) (m : List Entry) → j ≺ k → Below j m → Below k m
Below-trans j k m p = All-imp (λ e q. lt_trans e.0 j k q p) m

pub Above-insert :
    (j k : Bytes) (v : Option Bytes) (m : List Entry) → j ≺ k → Above j m → Above j (insert k v m)
unfolding insert
Above-insert j k v [] p h = (p, tt)
Above-insert j k v ((i, w) ∷ m) p h = ground (arith, Above-insert j k v m p)

pub Above-delete : (j k : Bytes) (m : List Entry) → Above j m → Above j (delete k m)
unfolding delete
Above-delete j k [] h = tt
Above-delete j k ((i, w) ∷ m) h = ground (arith, Above-delete j k m)

pub insert-IsSorted :
    (k : Bytes) (v : Option Bytes) (m : List Entry) → IsSorted m → IsSorted (insert k v m)
unfolding insert
insert-IsSorted k v [] h = (tt, tt)
insert-IsSorted k v ((j, w) ∷ m) h =
    ground (arith, insert-IsSorted k v m, Above-insert j k v m, Above-trans k j m, lt_of_gt k j)

pub delete-IsSorted : (k : Bytes) (m : List Entry) → IsSorted m → IsSorted (delete k m)
unfolding delete
delete-IsSorted k [] h = tt
delete-IsSorted k ((j, w) ∷ m) h = ground (arith, delete-IsSorted k m, Above-delete j k m)

pub lookup-Above : (k : Bytes) (m : List Entry) → Above k m → lookup k m ≡ none
unfolding lookup
lookup-Above k [] h = refl
lookup-Above k ((j, w) ∷ m) h = ground (arith, lookup-Above k m, gt_of_lt k j)

-- Reading a key just written, and another.
pub lookup-insert_self :
    (k : Bytes) (v : Option Bytes) (m : List Entry) → lookup k (insert k v m) ≡ v
unfolding lookup insert
lookup-insert_self k v [] = ground (arith, compare_bytes_refl k)
lookup-insert_self k v ((j, w) ∷ m) = ground (
  arith,
  lookup-insert_self k v m,
  compare_bytes_refl k,
  eq_of_compare_bytes k j,
  eq_of_compare_bytes j k,
)

pub lookup-insert_ne :
    (k j : Bytes) (v : Option Bytes) (m : List Entry) → k ≢ j → lookup j (insert k v m) ≡ lookup j m
unfolding lookup insert
lookup-insert_ne k j v [] n = ground (arith, eq_of_compare_bytes k j)
lookup-insert_ne k j v ((i, w) ∷ m) n = ground (
  arith,
  lookup-insert_ne k j v m,
  eq_of_compare_bytes k j,
  eq_of_compare_bytes k i,
  eq_of_compare_bytes i j,
)

pub lookup-delete_self : (k : Bytes) (m : List Entry) → IsSorted m → lookup k (delete k m) ≡ none
unfolding lookup delete
lookup-delete_self k [] h = refl
lookup-delete_self k ((j, w) ∷ m) h =
    ground (arith, lookup-delete_self k m, lookup-Above k m, eq_of_compare_bytes j k)

pub lookup-delete_ne : (k j : Bytes) (m : List Entry) → k ≢ j → lookup j (delete k m) ≡ lookup j m
unfolding lookup delete
lookup-delete_ne k j [] n = refl
lookup-delete_ne k j ((i, w) ∷ m) n =
    ground (arith, lookup-delete_ne k j m, eq_of_compare_bytes i k, eq_of_compare_bytes i j)

-- Sortedness of two halves.
pub IsSorted-append_inv :
    (xs ys : List Entry)
    → IsSorted (xs ++ ys)
    → IsSorted xs × IsSorted ys × All (λ e. Above e.0 ys) xs
IsSorted-append_inv [] ys h = (tt, h, tt)
IsSorted-append_inv ((k, v) ∷ xs) ys (a, h) =
    let (sx, sy, c) = IsSorted-append_inv xs ys h in
    let (ax, ay) = All-append_inv (λ e. k ≺ e.0) xs ys a in ((ax, sx), sy, (ay, c))

pub IsSorted-append :
    (xs ys : List Entry)
    → IsSorted xs
    → IsSorted ys
    → All (λ e. Above e.0 ys) xs
    → IsSorted (xs ++ ys)
IsSorted-append [] ys sx sy c = sy
IsSorted-append ((k, v) ∷ xs) ys (a, sx) sy (b, c) =
    (All-append (λ e. k ≺ e.0) xs ys a b, IsSorted-append xs ys sx sy c)

-- What holds of every entry still does after a write of such an entry, and after a removal.
module _ (P : Entry → Type 0) where
  pub All-insert :
      (k : Bytes) (v : Option Bytes) (m : List Entry)
      → ((j : Bytes) → P (j, v))
      → All P m
      → All P (insert k v m)
  unfolding insert
  All-insert k v [] p h = (p k, tt)
  All-insert k v ((j, w) ∷ m) p h = ground (arith, p k, p j, All-insert k v m p)

  pub All-delete : (k : Bytes) (m : List Entry) → All P m → All P (delete k m)
  unfolding delete
  All-delete k [] h = tt
  All-delete k ((j, w) ∷ m) h = ground (arith, All-delete k m)

-- Removing a key that is not there changes nothing, when no value is nil.
pub delete_absent :
    (k : Bytes) (m : List Entry) → All (λ e. e.1 ≢ none) m → lookup k m ≡ none → delete k m ≡ m
unfolding delete lookup
delete_absent k [] h e = refl
delete_absent k ((j, w) ∷ m) (n, h) e = ground (arith, delete_absent k m h)
