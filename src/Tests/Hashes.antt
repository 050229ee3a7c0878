-- ===== src/Tests/Hashes.antt =====
-- Hashes and versions at small inputs, with a toy hash function.
use store.Prelude.{
  true, ◌+◌, Option, none, some, ◌⊎◌, length, [], ◌∷◌, ◌≡◌, refl, arith, Returns, inr,
  if◌then◌else◌, ◌==◌,
}
use store.Bytes.{Bytes, compare_bytes}
use store.Memiavl.Node.{Node, leaf, branch, height, size, set_recursive, remove_recursive}
use store.Memiavl.Node.Leaves.{entries, min_key}
use store.Memiavl.Node.Valid.{IsValid}
use store.Memiavl.Node.Remove.{HasValues}
use store.Memiavl.Node.Hash.{hash, leaf_bytes}
use store.Memiavl.Node.Hash.Fresh.{content_hash, IsFresh}
use store.Memiavl.Node.Hash.Commits.{HasSameContents, HasCollision, hash-HasSameContents}
use store.Memiavl.Node.Hash.Writes.{
  IsFreshRoot, HasContentHash, hash-set_recursive, hash-remove_recursive,
}
use store.Memiavl.Versions.{
  next_version, wal_index, wal_version, wal_version-wal_index, wal_index-next_version,
}
use store.Memiavl.Tree.{Tree, save_version}
use store.Memiavl.Tree.Saves.{HasSaved, save_version_lem}
use store.Tests.Data.{pair_tree}

abbrev toy_hash : Bytes → Bytes
toy_hash bz = 9 ∷ bz

-- Keys 1, 3 and 5; the leaf of 1 keeps its hash.
abbrev kept_tree : Node
kept_tree =
    branch 2 3 1 (3 ∷ []) none
      (leaf (1 ∷ []) (some (1 ∷ 1 ∷ [])) 1
        (some (toy_hash (leaf_bytes toy_hash (1 ∷ []) (some (1 ∷ 1 ∷ [])) 1))))
      pair_tree

kept_tree-IsFresh : IsFresh toy_hash kept_tree
unfolding content_hash
kept_tree-IsFresh = (tt, refl, (tt, tt, tt))

kept_tree-IsValid : IsValid kept_tree
unfolding entries min_key height size compare_bytes
kept_tree-IsValid = record {
  sorted = ((refl, (refl, tt)), ((refl, tt), (tt, tt)));
  keyed = (refl, tt, (refl, tt, tt));
  avl = (refl, refl, omega arith, omega arith, tt, (refl, refl, omega arith, omega arith, tt, tt));
}

kept_values : HasValues (entries kept_tree)
unfolding entries
kept_values = ((λ e. cc), ((λ e. cc), ((λ e. cc), tt)))

-- The leaf that keeps its hash gets another value.
hash-set_recursive_example :
    Returns
      (set_recursive kept_tree (1 ∷ []) (some []) 2)
      (λ r. IsFresh toy_hash r.0 × ((hash toy_hash r.0).0 ≡ content_hash toy_hash r.0))
hash-set_recursive_example =
    hash-set_recursive toy_hash kept_tree (1 ∷ []) (some []) 2 kept_tree-IsValid
      (unfold size in omega arith) kept_tree-IsFresh

hash-remove_recursive_example :
    Returns
      (remove_recursive kept_tree (3 ∷ []) 2)
      (λ r. IsFreshRoot toy_hash r.node × HasContentHash toy_hash r.node)
hash-remove_recursive_example =
    hash-remove_recursive toy_hash kept_tree (3 ∷ []) 2 kept_tree-IsValid kept_values
      (unfold size in omega arith) kept_tree-IsFresh

-- The chain starts at 100.
wal_version-wal_index_example :
    (wal_version (wal_index 105 100) 100 ≡ 105) × (wal_index (wal_version 105 100) 100 ≡ 105)
wal_version-wal_index_example = wal_version-wal_index 105 100 (omega arith) (omega arith)

wal_index-next_version_example :
    wal_index (next_version 105 100) 100 ≡ (if 105 == 0 then 1 else wal_index 105 100 + 1)
wal_index-next_version_example =
    wal_index-next_version 105 100 (omega arith) (omega arith) (inr (omega arith))

abbrev saved_tree : Tree Unit
saved_tree = record {
  version = 1;
  cow_version = 0;
  root = some kept_tree;
  cache = none;
  zero_copy = true;
}

save_version_example :
    Returns (save_version toy_hash true saved_tree) (HasSaved toy_hash saved_tree true)
save_version_example = save_version_lem toy_hash true saved_tree kept_tree-IsFresh (omega arith)

-- A hash of 32 bytes, the first of which is the length.
abbrev length_hash : Bytes → Bytes
length_hash bz =
    length bz
    ∷ 0
    ∷ 0
    ∷ 0
    ∷ 0
    ∷ 0
    ∷ 0
    ∷ 0
    ∷ 0
    ∷ 0
    ∷ 0
    ∷ 0
    ∷ 0
    ∷ 0
    ∷ 0
    ∷ 0
    ∷ 0
    ∷ 0
    ∷ 0
    ∷ 0
    ∷ 0
    ∷ 0
    ∷ 0
    ∷ 0
    ∷ 0
    ∷ 0
    ∷ 0
    ∷ 0
    ∷ 0
    ∷ 0
    ∷ 0
    ∷ 0
    ∷ []

-- The pair's leaf of 3, or with its hash kept.
abbrev pair_kept : Option Bytes → Node
pair_kept kept =
    branch 1 2 1 (5 ∷ []) none (leaf (3 ∷ []) (some (1 ∷ [])) 1 kept)
      (leaf (5 ∷ []) (some (2 ∷ [])) 1 none)

abbrev leaf_hash : Bytes
leaf_hash = length_hash (leaf_bytes length_hash (3 ∷ []) (some (1 ∷ [])) 1)

hash-HasSameContents_example :
    HasSameContents (pair_kept none) (pair_kept (some leaf_hash))
    ⊎ HasCollision length_hash (pair_kept none) (pair_kept (some leaf_hash))
unfolding hash content_hash
hash-HasSameContents_example =
    hash-HasSameContents length_hash (λ bz. refl) (pair_kept none) (pair_kept (some leaf_hash))
      (
        omega arith,
        omega arith,
        omega arith,
        omega arith,
        (omega arith, omega arith),
        (omega arith, omega arith),
      )
      (
        omega arith,
        omega arith,
        omega arith,
        omega arith,
        (omega arith, omega arith),
        (omega arith, omega arith),
      )
      (tt, tt, tt) (tt, refl, tt) refl
