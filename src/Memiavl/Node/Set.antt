-- ===== src/Memiavl/Node/Set.antt =====
-- `setRecursive` of memiavl/node.go returns, and inserts into the sorted list of leaves.
use native.Mathlib.Decide.{dec_le}
use store.Prelude.{
  ℕ, ◌+◌, ◌^◌, ◌≤◌, ◌<◌, max, Bool, true, false, Option, none, some, ◌++◌, ◌≡◌, refl, ap, ◌∙◌,
  Returns, Returns-bind, arith, if◌then◌else◌, inl, inr,
}
use store.Bytes.{Bytes, compare_bytes}
use store.Bytes.Order.{◌≺◌, ◌≼◌, Ordering-cases}
use store.Memiavl.SortedMap.{insert}
use store.Memiavl.SortedMap.Halves.{insert-append_left, insert-append_right}
use store.Memiavl.Node.{Node, leaf, branch, height, size, finish_set, set_recursive}
use store.Memiavl.Node.Balance.{IsAvl, IsRebalanced}
use store.Memiavl.Node.Leaves.{entries, min_key, IsKeyed, HasLeaves}
use store.Memiavl.Node.Valid.{
  IsValid, HasHalves, IsValid-HasHalves, first-insert, first-entries, min_key_of_entries,
  re_balance_lem,
}

-- What `setRecursive` makes of a tree `t`: `r.1` says whether the key was there.
pub record HasInserted (t : Node) (key : Bytes) (value : Option Bytes) (r : Node × Bool)
    : Type 0 where
  pub same : entries r.0 ≡ insert key value (entries t)
  pub keyed : IsKeyed r.0
  pub avl : IsAvl r.0
  pub low : height t ≤ height r.0
  pub high : height r.0 ≤ height t + 1
  pub level : r.1 ≡ true → height r.0 ≡ height t
  pub grown : size r.0 ≡ size t + (if r.1 then 0 else 1)

-- A tree whose child grew by one at most is not lower after rebalancing.
rebalanced_low :
    (old new other got : ℕ) {h : ℕ}
    → h ≡ max old other + 1
    → old ≤ other + 1
    → other ≤ old + 1
    → old ≤ new
    → new ≤ old + 1
    → max new other ≤ got
    → (new ≤ other + 1 → other ≤ new + 1 → got ≡ max new other + 1)
    → h ≤ got
rebalanced_low old new other got e a b c d f g = elim (dec_le new (other + 1)) [
  | yes p ↦ omega (arith, g p (omega arith))
  | no p ↦ omega arith
]

split_leaf :
    (k key : Bytes) (w value : Option Bytes) (ver version : ℕ) (hash : Option Bytes)
    → Returns
        (set_recursive (leaf k w ver hash) key value version)
        (HasInserted (leaf k w ver hash) key value)
unfolding set_recursive entries insert height size min_key
split_leaf k key w value ver version hash = ground arith

module _ (h s v version : ℕ) (k : Bytes) (hash : Option Bytes) (left right : Node) (key : Bytes)
    (value : Option Bytes) (valid : IsValid (branch h s v k hash left right))
    (room : s + 1 < 2 ^ 63) where
  halves : HasHalves k left right
  halves = IsValid-HasHalves h s v k hash left right valid

  abbrev Whole : Node × Bool → Type 0
  Whole = HasInserted (branch h s v k hash left right) key value

  -- The leaves after the insertion into the left child, and into the right one.
  entries_left :
      (child : Node)
      → key ≺ k
      → entries child ≡ insert key value (entries left)
      → entries child ++ entries right ≡ insert key value (entries (branch h s v k hash left right))
  unfolding entries
  entries_left child p e =
      rw (insert-append_left key value (entries left) (entries right) (halves.above key p))
        (ap (λ m. m ++ entries right) e)

  entries_right :
      (child : Node)
      → k ≼ key
      → entries child ≡ insert key value (entries right)
      → entries left ++ entries child ≡ insert key value (entries (branch h s v k hash left right))
  unfolding entries
  entries_right child p e =
      rw (insert-append_right key value (entries left) (entries right) (halves.below key p))
        (ap (λ m. entries left ++ m) e)

  min_key_right :
      (child : Node)
      → k ≼ key
      → entries child ≡ insert key value (entries right)
      → min_key child ≡ k
  min_key_right child p e =
      min_key_of_entries child _ k e
        (first-insert key k value (entries right) (first-entries right ∙ ap some valid.keyed.0) p)

  -- The same key: heights and sizes stay.
  update_left :
      (child : Node)
      → key ≺ k
      → HasInserted left key value (child, true)
      → Whole (branch h s version k none child right, true)
  unfolding height size
  update_left child p r =
      let a = valid.avl in
      record {
        same = unfold entries in entries_left child p r.same;
        keyed = (valid.keyed.0, r.keyed, valid.keyed.2);
        avl = (
          omega (arith, r.level refl),
          omega (arith, r.grown),
          omega (arith, r.level refl),
          omega (arith, r.level refl),
          r.avl,
          a.5,
        );
        low = omega arith;
        high = omega arith;
        level = λ _. refl;
        grown = omega arith;
      }

  insert_left :
      (child : Node)
      → key ≺ k
      → HasInserted left key value (child, false)
      → Returns (finish_set version false (branch h s version k none child right)) Whole
  unfolding finish_set height size
  insert_left child p r =
      let a = valid.avl in
      Returns-bind (λ t. IsRebalanced child right t × HasLeaves child right t) Whole _ _
        (re_balance_lem version version k none child right r.avl a.5 (omega arith) (omega arith)
          (omega arith) valid.keyed.0 r.keyed valid.keyed.2)
        λ t b. record {
          same = b.1.same ∙ entries_left child p r.same;
          keyed = b.1.keyed;
          avl = b.0.avl;
          low =
              rebalanced_low (height left) (height child) (height right) (height t) a.0 a.2 a.3
                r.low r.high b.0.low b.0.same;
          high = omega (arith, b.0.high);
          level = λ e. cc;
          grown = omega (arith, b.0.whole);
        }

  update_right :
      (child : Node)
      → k ≼ key
      → HasInserted right key value (child, true)
      → Whole (branch h s version k none left child, true)
  unfolding height size
  update_right child p r =
      let a = valid.avl in
      record {
        same = unfold entries in entries_right child p r.same;
        keyed = (min_key_right child p r.same, valid.keyed.1, r.keyed);
        avl = (
          omega (arith, r.level refl),
          omega (arith, r.grown),
          omega (arith, r.level refl),
          omega (arith, r.level refl),
          a.4,
          r.avl,
        );
        low = omega arith;
        high = omega arith;
        level = λ _. refl;
        grown = omega arith;
      }

  insert_right :
      (child : Node)
      → k ≼ key
      → HasInserted right key value (child, false)
      → Returns (finish_set version false (branch h s version k none left child)) Whole
  unfolding finish_set height size
  insert_right child p r =
      let a = valid.avl in
      Returns-bind (λ t. IsRebalanced left child t × HasLeaves left child t) Whole _ _
        (re_balance_lem version version k none left child a.4 r.avl (omega arith) (omega arith)
          (omega arith) (min_key_right child p r.same) valid.keyed.1 r.keyed)
        λ t b. record {
          same = b.1.same ∙ entries_right child p r.same;
          keyed = b.1.keyed;
          avl = b.0.avl;
          low =
              rebalanced_low (height right) (height child) (height left) (height t) (omega arith)
                a.3 a.2 r.low r.high (omega (arith, b.0.low)) (λ x y. omega (arith, b.0.same y x));
          high = omega (arith, b.0.high);
          level = λ e. cc;
          grown = omega (arith, b.0.whole);
        }

  finish_left :
      (r : Node × Bool)
      → key ≺ k
      → HasInserted left key value r
      → Returns (finish_set version r.1 (branch h s version k none r.0 right)) Whole
  unfolding finish_set
  finish_left (child, true) p r = update_left child p r
  finish_left (child, false) p r = insert_left child p r

  finish_right :
      (r : Node × Bool)
      → k ≼ key
      → HasInserted right key value r
      → Returns (finish_set version r.1 (branch h s version k none left r.0)) Whole
  unfolding finish_set
  finish_right (child, true) p r = update_right child p r
  finish_right (child, false) p r = insert_right child p r

-- On a valid tree (sorted, keyed, AVL) with room for one more leaf below 2 ^ 63, `setRecursive`
-- returns without a nil dereference; the new tree's leaves are the old ones with the pair
-- inserted or replaced, it is keyed and AVL, its height grew by one at most and not at all on an
-- update, and its size grew by one exactly when the key was new.
pub set_recursive-HasInserted :
    (t : Node) (key : Bytes) (value : Option Bytes) (version : ℕ)
    → IsValid t
    → size t + 1 < 2 ^ 63
    → Returns (set_recursive t key value version) (HasInserted t key value)
unfolding set_recursive size
set_recursive-HasInserted (leaf k w v hash) key value version valid room =
    split_leaf k key w value v version hash
set_recursive-HasInserted (branch h s v k hash left right) key value version valid room =
    let x = IsValid-HasHalves h s v k hash left right valid in
    let whole = HasInserted (branch h s v k hash left right) key value in
    let in_right = λ (p : k ≼ key).
      Returns-bind (HasInserted right key value) whole (set_recursive right key value version)
        (λ r. finish_set version r.1 (branch h s version k none left r.0))
        (set_recursive-HasInserted right key value version x.right_valid
          (omega (arith, valid.avl.1)))
        (λ r. finish_right h s v version k hash left right key value valid room r p) in
    elim (Ordering-cases (compare_bytes key k)) [
      | inl e ↦
          rw (e, set_recursive)
            (Returns-bind (HasInserted left key value) whole (set_recursive left key value version)
              (λ r. finish_set version r.1 (branch h s version k none r.0 right))
              (set_recursive-HasInserted left key value version x.left_valid
                (omega (arith, valid.avl.1)))
              (λ r. finish_left h s v version k hash left right key value valid room r e))
      | inr (inl e) ↦ rw (e, set_recursive) (in_right (λ f. cc))
      | inr (inr e) ↦ rw (e, set_recursive) (in_right (λ f. cc))
    ]
