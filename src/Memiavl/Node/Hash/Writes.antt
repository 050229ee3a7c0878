-- ===== src/Memiavl/Node/Hash/Writes.antt =====
-- `setRecursive` and `removeRecursive` leave only fresh hashes, so the root's hash is that of the new
-- contents.
use mathlib.Core.Option.{get_or}
use store.Prelude.{
  ℕ, ◌+◌, ◌^◌, ◌<◌, Option, none, some, ◌≡◌, Bool, true, false, Returns, IfReturns, Returns_imp,
  Returns-IfReturns, IfReturns-bind, inl, inr,
}
use store.Bytes.{Bytes, compare_bytes}
use store.Bytes.Order.{Ordering-cases}
use store.Memiavl.Node.{
  Node, leaf, branch, size, update_height_size, re_balance, finish_set, set_recursive,
  new_leaf_node, removed_left, removed_right, remove_recursive,
}
use store.Memiavl.Node.Leaves.{entries}
use store.Memiavl.Node.Valid.{IsValid}
use store.Memiavl.Node.Set.{HasInserted, set_recursive-HasInserted}
use store.Memiavl.Node.Remove.{HasRemoved, HasValues, remove_recursive-HasRemoved}
use store.Memiavl.Node.Hash.{hash}
use store.Memiavl.Node.Hash.Fresh.{content_hash, IsFresh, hash_lem}
use store.Memiavl.Node.Hash.Balanced.{re_balance-IsFresh}

module _ (sha256 : Bytes → Bytes) where
  finish_set-IsFresh :
      (h s version : ℕ) (key : Bytes) (updated : Bool) (left right : Node)
      → IsFresh sha256 left
      → IsFresh sha256 right
      → IfReturns
          (finish_set version updated (branch h s version key none left right))
          (λ r. IsFresh sha256 r.0)
  unfolding finish_set
  finish_set-IsFresh h s version key true left right fl fr = (tt, fl, fr)
  finish_set-IsFresh h s version key false left right fl fr =
      IfReturns-bind (IsFresh sha256) (λ r. IsFresh sha256 r.0)
        (re_balance version (update_height_size version key none left right)) _
        (re_balance-IsFresh sha256 version version key left right fl fr) (λ t f. f)

  pub set_recursive-IsFresh :
      (t : Node) (key : Bytes) (value : Option Bytes) (version : ℕ)
      → IsFresh sha256 t
      → IfReturns (set_recursive t key value version) (λ r. IsFresh sha256 r.0)
  unfolding set_recursive new_leaf_node
  set_recursive-IsFresh (leaf k w v kept) key value version f =
      elim (Ordering-cases (compare_bytes key k)) [
        | inl e ↦ rw (e, set_recursive) (tt, tt, f)
        | inr (inl e) ↦ rw (e, set_recursive) tt
        | inr (inr e) ↦ rw (e, set_recursive) (tt, f, tt)
      ]
  set_recursive-IsFresh (branch h s v k kept left right) key value version f =
      let in_right =
        IfReturns-bind (λ r. IsFresh sha256 r.0) (λ r. IsFresh sha256 r.0)
          (set_recursive right key value version)
          (λ r. finish_set version r.1 (branch h s version k none left r.0))
          (set_recursive-IsFresh right key value version f.2)
          (λ r g. finish_set-IsFresh h s version k r.1 left r.0 f.1 g) in
      elim (Ordering-cases (compare_bytes key k)) [
        | inl e ↦
            rw (e, set_recursive)
              (IfReturns-bind (λ r. IsFresh sha256 r.0) _ (set_recursive left key value version) _
                (set_recursive-IsFresh left key value version f.1)
                (λ r g. finish_set-IsFresh h s version k r.1 r.0 right g f.2))
        | inr (inl e) ↦ rw (e, set_recursive) in_right
        | inr (inr e) ↦ rw (e, set_recursive) in_right
      ]

  -- What is left of a tree keeps only fresh hashes.
  abbrev pub IsFreshRoot : Option Node → Type 0
  IsFreshRoot none = Unit
  IsFreshRoot (some t) = IsFresh sha256 t

  removed_left-IsFresh :
      (version : ℕ) (node : Node) (key : Bytes) (right : Node) (value : Option Bytes)
      (child : Option Node) (new_key : Option Bytes)
      → IsFresh sha256 node
      → IsFresh sha256 right
      → IsFreshRoot child
      → IfReturns
          (removed_left version node key right value child new_key)
          (λ r. IsFreshRoot r.node)
  unfolding removed_left
  removed_left-IsFresh version node key right none child new_key f fr fc = f
  removed_left-IsFresh version node key right (some value) none new_key f fr fc = fr
  removed_left-IsFresh version node key right (some value) (some child) new_key f fr fc =
      IfReturns-bind (IsFresh sha256) (λ r. IsFreshRoot r.node)
        (re_balance version (update_height_size version key none child right)) _
        (re_balance-IsFresh sha256 version version key child right fc fr) (λ t g. g)

  removed_right-IsFresh :
      (version : ℕ) (node : Node) (key : Bytes) (left : Node) (value : Option Bytes)
      (child : Option Node) (new_key : Option Bytes)
      → IsFresh sha256 node
      → IsFresh sha256 left
      → IsFreshRoot child
      → IfReturns
          (removed_right version node key left value child new_key)
          (λ r. IsFreshRoot r.node)
  unfolding removed_right
  removed_right-IsFresh version node key left none child new_key f fl fc = f
  removed_right-IsFresh version node key left (some value) none new_key f fl fc = fl
  removed_right-IsFresh version node key left (some value) (some child) new_key f fl fc =
      IfReturns-bind (IsFresh sha256) (λ r. IsFreshRoot r.node)
        (re_balance version (update_height_size version (get_or new_key key) none left child)) _
        (re_balance-IsFresh sha256 version version (get_or new_key key) left child fl fc) (λ t g. g)

  pub remove_recursive-IsFresh :
      (t : Node) (key : Bytes) (version : ℕ)
      → IsFresh sha256 t
      → IfReturns (remove_recursive t key version) (λ r. IsFreshRoot r.node)
  unfolding remove_recursive
  remove_recursive-IsFresh (leaf k w v kept) key version f =
      elim (Ordering-cases (compare_bytes k key)) [
        | inl e ↦ rw (e, remove_recursive) f
        | inr (inl e) ↦ rw (e, remove_recursive) tt
        | inr (inr e) ↦ rw (e, remove_recursive) f
      ]
  remove_recursive-IsFresh (branch h s v k kept left right) key version f =
      let node = branch h s v k kept left right in
      let in_right =
        IfReturns-bind (λ r. IsFreshRoot r.node) (λ r. IsFreshRoot r.node)
          (remove_recursive right key version)
          (λ r. removed_right version node k left r.value r.node r.new_key)
          (remove_recursive-IsFresh right key version f.2)
          (λ r g. removed_right-IsFresh version node k left r.value r.node r.new_key f f.1 g) in
      elim (Ordering-cases (compare_bytes key k)) [
        | inl e ↦
            rw (e, remove_recursive)
              (IfReturns-bind (λ r. IsFreshRoot r.node) _ (remove_recursive left key version) _
                (remove_recursive-IsFresh left key version f.1)
                (λ r g. removed_left-IsFresh version node k right r.value r.node r.new_key f f.2 g))
        | inr (inl e) ↦ rw (e, remove_recursive) in_right
        | inr (inr e) ↦ rw (e, remove_recursive) in_right
      ]

  -- For any hash function, on a valid tree with room below 2 ^ 63 in which every kept hash is
  -- the one of its node's contents, `setRecursive` returns a tree of which that holds again,
  -- so `Hash` of the new root is the hash of the new contents.
  pub hash-set_recursive :
      (t : Node) (key : Bytes) (value : Option Bytes) (version : ℕ)
      → IsValid t
      → size t + 1 < 2 ^ 63
      → IsFresh sha256 t
      → Returns
          (set_recursive t key value version)
          (λ r. IsFresh sha256 r.0 × ((hash sha256 r.0).0 ≡ content_hash sha256 r.0))
  hash-set_recursive t key value version valid room f =
      Returns_imp _ _ (set_recursive t key value version)
        (λ r (_, g). (g, (hash_lem sha256 r.0 g).value))
        (Returns-IfReturns (HasInserted t key value) (λ r. IsFresh sha256 r.0)
          (set_recursive t key value version)
          (set_recursive-HasInserted t key value version valid room)
          (set_recursive-IsFresh t key value version f))

  -- The root that is left, if any, has the hash of its contents.
  abbrev pub HasContentHash : Option Node → Type 0
  HasContentHash none = Unit
  HasContentHash (some t) = (hash sha256 t).0 ≡ content_hash sha256 t

  root_hash : (root : Option Node) → IsFreshRoot root → HasContentHash root
  root_hash none f = tt
  root_hash (some t) f = (hash_lem sha256 t f).value

  -- For any hash function, on a valid tree without nil values, with fewer than 2 ^ 63 leaves,
  -- in which every kept hash is the one of its node's contents, `removeRecursive` returns; the
  -- tree that is left, if any, again keeps only such hashes, and `Hash` of it is the hash of
  -- its contents.
  pub hash-remove_recursive :
      (t : Node) (key : Bytes) (version : ℕ)
      → IsValid t
      → HasValues (entries t)
      → size t < 2 ^ 63
      → IsFresh sha256 t
      → Returns (remove_recursive t key version) (λ r. IsFreshRoot r.node × HasContentHash r.node)
  hash-remove_recursive t key version valid values room f =
      Returns_imp _ _ (remove_recursive t key version) (λ r (_, g). (g, root_hash r.node g))
        (Returns-IfReturns (HasRemoved t key) (λ r. IsFreshRoot r.node)
          (remove_recursive t key version)
          (remove_recursive-HasRemoved t key version valid values room)
          (remove_recursive-IsFresh t key version f))
