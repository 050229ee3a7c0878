-- ===== src/Memiavl/Node/Remove.antt =====
-- `removeRecursive` of memiavl/node.go returns, and deletes from the sorted list of leaves.
use native.Mathlib.Decide.{dec_le}
use mathlib.Core.Option.{get_or}
use store.Prelude.{
  ℕ, ◌+◌, ◌^◌, ◌≤◌, ◌<◌, max, Option, none, some, List, [], ◌∷◌, ◌++◌, append-nil, All,
  All-append_inv, ◌≡◌, ◌≢◌, refl, sym, ap, ◌∙◌, Returns, Returns-bind, arith, inl, inr,
}
use store.Bytes.{Bytes, compare_bytes}
use store.Bytes.Order.{◌≺◌, ◌≼◌, Ordering-cases, compare_bytes_refl, eq_of_compare_bytes}
use store.Memiavl.SortedMap.{Entry, delete, lookup}
use store.Memiavl.SortedMap.Halves.{
  delete-append_left, delete-append_right, lookup-append_left, lookup-append_right,
}
use store.Memiavl.Node.{
  Node, leaf, branch, height, size, remove_recursive, Removed, removed_left, removed_right,
}
use store.Memiavl.Node.Balance.{IsAvl, IsRebalanced}
use store.Memiavl.Node.Leaves.{entries, min_key, IsKeyed, HasLeaves}
use store.Memiavl.Node.Valid.{IsValid, HasHalves, IsValid-HasHalves, re_balance_lem}

-- `t'` is `t` without the key, which had the value `x`; `new_key` tells whether the smallest key changed.
pub record HasShrunk (t : Node) (key x : Bytes) (t' : Node) (new_key : Option Bytes) : Type 0 where
  pub found : lookup key (entries t) ≡ some x
  pub same : entries t' ≡ delete key (entries t)
  pub keyed : IsKeyed t'
  pub avl : IsAvl t'
  pub low : height t ≤ height t' + 1
  pub high : height t' ≤ height t
  pub shrunk : size t ≡ size t' + 1
  pub least : min_key t' ≡ get_or new_key (min_key t)

-- The tree was the leaf that is removed.
pub record HasGone (t : Node) (key x : Bytes) (new_key : Option Bytes) : Type 0 where
  pub only : entries t ≡ (key, some x) ∷ []
  pub flat : height t ≡ 0
  pub one : size t ≡ 1
  pub none_new : new_key ≡ none

-- The three results that the comment above `removeRecursive` names.
abbrev pub IsRemoval : Node → Bytes → Option Bytes → Option Node → Option Bytes → Type 0
IsRemoval t key none node new_key =
    (lookup key (entries t) ≡ none) × (node ≡ some t) × (new_key ≡ none)
IsRemoval t key (some x) none new_key = HasGone t key x new_key
IsRemoval t key (some x) (some t') new_key = HasShrunk t key x t' new_key

abbrev pub HasRemoved : Node → Bytes → Removed → Type 0
HasRemoved t key r = IsRemoval t key r.value r.node r.new_key

-- No value is a nil slice.
abbrev pub HasValues : List Entry → Type 0
HasValues = All (λ e. e.1 ≢ none)

remove_leaf :
    (k key : Bytes) (w : Option Bytes) (v version : ℕ) (hash : Option Bytes)
    → w ≢ none
    → Returns (remove_recursive (leaf k w v hash) key version) (HasRemoved (leaf k w v hash) key)
unfolding remove_recursive entries lookup height size
remove_leaf k key none v version hash n = absurd (n refl)
remove_leaf k key (some x) v version hash n = ground (arith, eq_of_compare_bytes k key)

shrunk_low :
    (old new other got : ℕ) {h : ℕ}
    → h ≡ max old other + 1
    → old ≤ other + 1
    → other ≤ old + 1
    → old ≤ new + 1
    → max new other ≤ got
    → (new ≤ other + 1 → other ≤ new + 1 → got ≡ max new other + 1)
    → new ≤ old
    → h ≤ got + 1
shrunk_low old new other got e a b c f g d = elim (dec_le other (new + 1)) [
  | yes p ↦ omega (arith, g (omega arith) p)
  | no p ↦ omega arith
]

module _ (h s v version : ℕ) (k : Bytes) (hash : Option Bytes) (left right : Node) (key : Bytes)
    (valid : IsValid (branch h s v k hash left right)) (room : s < 2 ^ 63) where
  halves : HasHalves k left right
  halves = IsValid-HasHalves h s v k hash left right valid

  abbrev whole : Node
  whole = branch h s v k hash left right

  lookup_left : key ≺ k → lookup key (entries whole) ≡ lookup key (entries left)
  unfolding entries
  lookup_left p = lookup-append_left key (entries left) (entries right) (halves.above key p)

  lookup_right : k ≼ key → lookup key (entries whole) ≡ lookup key (entries right)
  unfolding entries
  lookup_right p = lookup-append_right key (entries left) (entries right) (halves.below key p)

  delete_left :
      (m : List Entry)
      → key ≺ k
      → m ≡ delete key (entries left)
      → m ++ entries right ≡ delete key (entries whole)
  unfolding entries
  delete_left m p e =
      rw (delete-append_left key (entries left) (entries right) (halves.above key p))
        (ap (λ x. x ++ entries right) e)

  delete_right :
      (m : List Entry)
      → k ≼ key
      → m ≡ delete key (entries right)
      → entries left ++ m ≡ delete key (entries whole)
  unfolding entries
  delete_right m p e =
      rw (delete-append_right key (entries left) (entries right) (halves.below key p))
        (ap (λ x. entries left ++ x) e)

  delete_only :
      (t : Node) (x : Bytes) → entries t ≡ (key, some x) ∷ [] → [] ≡ delete key (entries t)
  unfolding delete
  delete_only t x e = rw e (ground (arith, compare_bytes_refl key))

  lookup_only :
      (t : Node) (x : Bytes) → entries t ≡ (key, some x) ∷ [] → lookup key (entries t) ≡ some x
  unfolding lookup
  lookup_only t x e = rw e (ground (arith, compare_bytes_refl key))

  shrink_left :
      (x : Bytes) (child : Node) (new_key : Option Bytes)
      → key ≺ k
      → HasShrunk left key x child new_key
      → Returns
          (removed_left version whole k right (some x) (some child) new_key)
          (HasRemoved whole key)
  unfolding removed_left height size
  shrink_left x child new_key p r =
      let a = valid.avl in
      Returns-bind (λ t. IsRebalanced child right t × HasLeaves child right t)
        (HasRemoved whole key) _ _
        (re_balance_lem version version k none child right r.avl a.5 (omega (arith, r.high))
          (omega (arith, r.low)) (omega (arith, r.shrunk)) valid.keyed.0 r.keyed valid.keyed.2)
        λ t b. record {
          found = lookup_left p ∙ r.found;
          same = b.1.same ∙ delete_left (entries child) p r.same;
          keyed = b.1.keyed;
          avl = b.0.avl;
          low =
              shrunk_low (height left) (height child) (height right) (height t) a.0 a.2 a.3 r.low
                b.0.low b.0.same r.high;
          high = omega (arith, b.0.high, r.high);
          shrunk = omega (arith, b.0.whole, r.shrunk);
          least = unfold min_key in (b.1.least ∙ r.least);
        }

  shrink_right :
      (x : Bytes) (child : Node) (new_key : Option Bytes)
      → k ≼ key
      → HasShrunk right key x child new_key
      → Returns
          (removed_right version whole k left (some x) (some child) new_key)
          (HasRemoved whole key)
  unfolding removed_right height size
  shrink_right x child new_key p r =
      let a = valid.avl in
      Returns-bind (λ t. IsRebalanced left child t × HasLeaves left child t) (HasRemoved whole key)
        _ _
        (re_balance_lem version version (get_or new_key k) none left child a.4 r.avl
          (omega (arith, r.low)) (omega (arith, r.high)) (omega (arith, r.shrunk))
          (r.least ∙ ap (get_or new_key) valid.keyed.0) valid.keyed.1 r.keyed)
        λ t b. record {
          found = lookup_right p ∙ r.found;
          same = b.1.same ∙ delete_right (entries child) p r.same;
          keyed = b.1.keyed;
          avl = b.0.avl;
          low =
              shrunk_low (height right) (height child) (height left) (height t) (omega arith) a.3
                a.2 r.low (omega (arith, b.0.low)) (λ y z. omega (arith, b.0.same z y)) r.high;
          high = omega (arith, b.0.high, r.high);
          shrunk = omega (arith, b.0.whole, r.shrunk);
          least = unfold min_key in b.1.least;
        }

  finish_left :
      (value : Option Bytes) (node : Option Node) (new_key : Option Bytes)
      → key ≺ k
      → IsRemoval left key value node new_key
      → Returns (removed_left version whole k right value node new_key) (HasRemoved whole key)
  unfolding removed_left
  finish_left none _ new_key p r = (lookup_left p ∙ r.0, refl, refl)
  finish_left (some x) none new_key p r =
      let a = valid.avl in
      record {
        found = lookup_left p ∙ lookup_only left x r.only;
        same = delete_left [] p (delete_only left x r.only);
        keyed = valid.keyed.2;
        avl = a.5;
        low = unfold height in omega (arith, r.flat);
        high = unfold height in omega (arith, r.flat);
        shrunk = unfold size in omega (arith, r.one);
        least = valid.keyed.0;
      }
  finish_left (some x) (some child) new_key p r = shrink_left x child new_key p r

  finish_right :
      (value : Option Bytes) (node : Option Node) (new_key : Option Bytes)
      → k ≼ key
      → IsRemoval right key value node new_key
      → Returns (removed_right version whole k left value node new_key) (HasRemoved whole key)
  unfolding removed_right
  finish_right none _ new_key p r = (lookup_right p ∙ r.0, refl, refl)
  finish_right (some x) none new_key p r =
      let a = valid.avl in
      record {
        found = lookup_right p ∙ lookup_only right x r.only;
        same = sym (append-nil (entries left)) ∙ delete_right [] p (delete_only right x r.only);
        keyed = valid.keyed.1;
        avl = a.4;
        low = unfold height in omega (arith, r.flat);
        high = unfold height in omega (arith, r.flat);
        shrunk = unfold size in omega (arith, r.one);
        least = unfold min_key in refl;
      }
  finish_right (some x) (some child) new_key p r = shrink_right x child new_key p r

-- On a valid tree without nil values and with fewer than 2 ^ 63 leaves, `removeRecursive`
-- returns, with one of its three results: no value and the same tree when the key is absent; the
-- value and no tree when the tree was that leaf; else the value and a keyed AVL tree with the
-- leaves but the removed one, and the new smallest key when that changed.
pub remove_recursive-HasRemoved :
    (t : Node) (key : Bytes) (version : ℕ)
    → IsValid t
    → HasValues (entries t)
    → size t < 2 ^ 63
    → Returns (remove_recursive t key version) (HasRemoved t key)
unfolding remove_recursive size entries
remove_recursive-HasRemoved (leaf k w v hash) key version valid values room =
    remove_leaf k key w v version hash values.0
remove_recursive-HasRemoved (branch h s v k hash left right) key version valid values room =
    let x = IsValid-HasHalves h s v k hash left right valid in
    let (vl, vr) =
      All-append_inv (λ (e : Entry). e.1 ≢ none) (entries left) (entries right) values in
    let node = branch h s v k hash left right in
    let in_right = λ (p : k ≼ key).
      Returns-bind (HasRemoved right key) (HasRemoved node key) (remove_recursive right key version)
        (λ r. removed_right version node k left r.value r.node r.new_key)
        (remove_recursive-HasRemoved right key version x.right_valid vr
          (omega (arith, valid.avl.1)))
        (λ r.
          finish_right h s v version k hash left right key valid room r.value r.node r.new_key p) in
    elim (Ordering-cases (compare_bytes key k)) [
      | inl e ↦
          rw (e, remove_recursive)
            (Returns-bind (HasRemoved left key) (HasRemoved node key)
              (remove_recursive left key version)
              (λ r. removed_left version node k right r.value r.node r.new_key)
              (remove_recursive-HasRemoved left key version x.left_valid vl
                (omega (arith, valid.avl.1)))
              (λ r.
                finish_left h s v version k hash left right key valid room r.value r.node r.new_key
                  e))
      | inr (inl e) ↦ rw (e, remove_recursive) (in_right (λ f. cc))
      | inr (inr e) ↦ rw (e, remove_recursive) (in_right (λ f. cc))
    ]
