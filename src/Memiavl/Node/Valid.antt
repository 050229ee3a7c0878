-- ===== src/Memiavl/Node/Valid.antt =====
-- The invariant of a tree, and where a key lies by the key of a branch.
use store.Prelude.{
  ℕ, ◌+◌, ◌<◌, Option, none, some, List, [], ◌∷◌, ◌++◌, length, length-append, All, All-imp, ◌≡◌,
  refl, ap, subst, ◌≤◌, ◌^◌, Returns, Returns-IfReturns, arith,
}
use store.Bytes.{Bytes}
use store.Bytes.Order.{◌≺◌, ◌≼◌, lt_trans, lt_le_trans, lt_irrefl}
use store.Memiavl.SortedMap.{Entry, Above, Below, IsSorted, insert}
use store.Memiavl.SortedMap.Laws.{Above-trans, IsSorted-append_inv}
use store.Memiavl.Node.{Node, leaf, branch, height, size, update_height_size, re_balance}
use store.Memiavl.Node.Balance.{IsAvl, IsRebalanced}
use store.Memiavl.Node.Leaves.{entries, min_key, IsKeyed, HasLeaves, re_balance-HasLeaves}
use store.Memiavl.Node.Rebalance.{re_balance-Returns}

-- Keys ascend strictly, branches carry the smallest key on their right, and the tree is balanced.
pub record IsValid (t : Node) : Type 0 where
  pub sorted : IsSorted (entries t)
  pub keyed : IsKeyed t
  pub avl : IsAvl t

pub first : List Entry → Option Bytes
first [] = none
first ((k, v) ∷ m) = some k

pub first-entries : (t : Node) → first (entries t) ≡ some (min_key t)
unfolding first entries min_key
first-entries (leaf key value version hash) = refl
first-entries (branch h s version key hash left right) = go (entries left) (first-entries left)
  where
    go :
        (xs : List Entry)
        → first xs ≡ some (min_key left)
        → first (xs ++ entries right) ≡ some (min_key left)
    go [] e = cc
    go (x ∷ xs) e = e

pub size-length : (t : Node) → IsAvl t → size t ≡ length (entries t)
unfolding size entries
size-length (leaf key value version hash) a = refl
size-length (branch h s version key hash left right) a = omega (
  arith,
  length-append (entries left) (entries right),
  size-length left a.4,
  size-length right a.5,
)

-- A key below the first of a sorted list is below all.
Above-first : (j k : Bytes) (m : List Entry) → IsSorted m → first m ≡ some k → j ≺ k → Above j m
unfolding first
Above-first j k [] s e p = tt
Above-first j k ((i, v) ∷ m) s e p = ground (arith, Above-trans j i m)

pub Above-entries :
    (j : Bytes) (t : Node) → IsSorted (entries t) → j ≺ min_key t → Above j (entries t)
Above-entries j t s p = Above-first j (min_key t) (entries t) s (first-entries t) p

lt_first : (j k : Bytes) (m : List Entry) → first m ≡ some k → Above j m → j ≺ k
unfolding first
lt_first j k [] e a = cc
lt_first j k ((i, v) ∷ m) e a = ground arith

le_of_lt : (j k : Bytes) → j ≺ k → j ≼ k
le_of_lt j k p e = lt_irrefl j (lt_trans j k j p e)

at_least_first : (k : Bytes) (m : List Entry) → IsSorted m → first m ≡ some k → All (λ e. k ≼ e.0) m
unfolding first
at_least_first k [] s e = tt
at_least_first k ((i, v) ∷ m) s e =
    let same : i ≡ k = ground arith in
    subst (λ j. All (λ e. j ≼ e.0) ((i, v) ∷ m)) same
      (lt_irrefl i, All-imp (λ x p. le_of_lt i x.0 p) m s.0)

-- No key of a tree is below its smallest.
pub AtLeast-entries : (t : Node) → IsSorted (entries t) → All (λ e. min_key t ≼ e.0) (entries t)
AtLeast-entries t s = at_least_first (min_key t) (entries t) s (first-entries t)

-- What is below all of a tree is below a key that is not less than its smallest.
pub Below-entries :
    (j : Bytes) (xs : List Entry) (t : Node)
    → All (λ e. Above e.0 (entries t)) xs
    → min_key t ≼ j
    → Below j xs
Below-entries j xs t a p =
    All-imp
      (λ e q.
        lt_le_trans e.0 (min_key t) j (lt_first e.0 (min_key t) (entries t) (first-entries t) q) p)
      xs a

-- The two halves of a valid branch.
pub record HasHalves (key : Bytes) (left right : Node) : Type 0 where
  pub left_valid : IsValid left
  pub right_valid : IsValid right
  pub above : (j : Bytes) → j ≺ key → Above j (entries right)
  pub below : (j : Bytes) → key ≼ j → Below j (entries left)
  pub at_least : All (λ e. key ≼ e.0) (entries right)

pub IsValid-HasHalves :
    (h s version : ℕ) (key : Bytes) (hash : Option Bytes) (left right : Node)
    → IsValid (branch h s version key hash left right)
    → HasHalves key left right
unfolding entries
IsValid-HasHalves h s version key hash left right v =
    let (sl, sr, c) = IsSorted-append_inv (entries left) (entries right) v.sorted in
    let m : min_key right ≡ key = v.keyed.0 in
    record {
      left_valid = record { sorted = sl; keyed = v.keyed.1; avl = v.avl.4 };
      right_valid = record { sorted = sr; keyed = v.keyed.2; avl = v.avl.5 };
      above = λ j p. Above-entries j right sr (rw m p);
      below = λ j p. Below-entries j (entries left) right c (rw m p);
      at_least = subst (λ j. All (λ e. j ≼ e.0) (entries right)) m (AtLeast-entries right sr);
    }

-- The first key after an insertion of a key that is not smaller.
pub first-insert :
    (k j : Bytes) (v : Option Bytes) (m : List Entry)
    → first m ≡ some j
    → j ≼ k
    → first (insert k v m) ≡ some j
unfolding first insert
first-insert k j v [] e p = cc
first-insert k j v ((i, w) ∷ m) e p = ground arith

pub min_key_of_entries :
    (t : Node) (m : List Entry) (k : Bytes) → entries t ≡ m → first m ≡ some k → min_key t ≡ k
min_key_of_entries t m k e f = cc (first-entries t, ap first e)

-- For keyed AVL children whose heights differ by two at most, with fewer than 2 ^ 63 leaves and
-- the right one's smallest key as the key, `updateHeightSize` and `reBalance` return an AVL tree
-- with the same leaves, of a height between the larger child's and one more, and keyed.
pub re_balance_lem :
    (version v : ℕ) (key : Bytes) (hash : Option Bytes) (left right : Node)
    → IsAvl left
    → IsAvl right
    → height left ≤ height right + 2
    → height right ≤ height left + 2
    → size left + size right < 2 ^ 63
    → min_key right ≡ key
    → IsKeyed left
    → IsKeyed right
    → Returns
        (re_balance version (update_height_size v key hash left right))
        (λ t. IsRebalanced left right t × HasLeaves left right t)
re_balance_lem version v key hash left right a b p q n m kl kr =
    Returns-IfReturns (IsRebalanced left right) (HasLeaves left right) _
      (re_balance-Returns version v key hash left right a b p q n)
      (re_balance-HasLeaves version v key hash left right m kl kr)
