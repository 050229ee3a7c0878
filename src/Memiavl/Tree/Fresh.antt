-- ===== src/Memiavl/Tree/Fresh.antt =====
-- Writes to a tree of memiavl/tree.go leave no outdated hash.
use store.Prelude.{
  ℕ, ◌+◌, ◌%◌, ◌^◌, Option, none, some, List, [], ◌∷◌, IfReturns, IfReturns-bind, Bool-cases, inl,
  inr,
}
use store.Bytes.{Bytes}
use store.Memiavl.Node.{Node, set_root, remove_root, new_leaf_node}
use store.Memiavl.Node.Hash.Writes.{IsFreshRoot, set_recursive-IsFresh, remove_recursive-IsFresh}
use store.Memiavl.Node.Hash.Fresh.{IsFresh}
use store.Memiavl.Tree.{
  Cache, KvPair, Tree, non_nil, tree_set, tree_remove, apply_pair, apply_change_set,
}

module _ (sha256 : Bytes → Bytes) where
  set_root-IsFresh :
      (root : Option Node) (key : Bytes) (value : Option Bytes) (version : ℕ)
      → IsFreshRoot sha256 root
      → IfReturns (set_root root key value version) (λ r. IsFresh sha256 r.0)
  unfolding set_root new_leaf_node
  set_root-IsFresh none key value version f = tt
  set_root-IsFresh (some t) key value version f = set_recursive-IsFresh sha256 t key value version f

  remove_root-IsFresh :
      (root : Option Node) (key : Bytes) (version : ℕ)
      → IsFreshRoot sha256 root
      → IfReturns (remove_root root key version) (λ r. IsFreshRoot sha256 r.node)
  unfolding remove_root
  remove_root-IsFresh none key version f = tt
  remove_root-IsFresh (some t) key version f = remove_recursive-IsFresh sha256 t key version f

  module _ (c : Cache) where
    open c use {State}

    abbrev HasFreshRoot : Tree State → Type 0
    HasFreshRoot t = IsFreshRoot sha256 t.root

    apply_pair-HasFreshRoot :
        (pair : KvPair) (t : Tree State)
        → HasFreshRoot t
        → IfReturns (apply_pair c pair t) HasFreshRoot
    unfolding apply_pair tree_set tree_remove
    apply_pair-HasFreshRoot pair t f = elim (Bool-cases pair.delete) [
      | inl e ↦ rw e (
          IfReturns-bind (λ r. IsFreshRoot sha256 r.node) HasFreshRoot
            (remove_root t.root pair.key ((t.version + 1) % 2 ^ 64)) _
            (remove_root-IsFresh t.root pair.key ((t.version + 1) % 2 ^ 64) f) (λ r g. g))
      | inr e ↦ rw e (
          IfReturns-bind (λ r. IsFresh sha256 r.0) HasFreshRoot
            (set_root t.root pair.key (non_nil pair.value) ((t.version + 1) % 2 ^ 64)) _
            (set_root-IsFresh t.root pair.key (non_nil pair.value) ((t.version + 1) % 2 ^ 64) f)
            (λ r g. g))
    ]

    pub apply_change_set-HasFreshRoot :
        (pairs : List KvPair) (t : Tree State)
        → IsFreshRoot sha256 t.root
        → IfReturns (apply_change_set c pairs t) (λ t'. IsFreshRoot sha256 t'.root)
    unfolding apply_change_set
    apply_change_set-HasFreshRoot [] t f = f
    apply_change_set-HasFreshRoot (pair ∷ pairs) t f =
        IfReturns-bind HasFreshRoot HasFreshRoot (apply_pair c pair t) (apply_change_set c pairs)
          (apply_pair-HasFreshRoot pair t f) (λ t' g. apply_change_set-HasFreshRoot pairs t' g)
