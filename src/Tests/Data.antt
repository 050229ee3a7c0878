-- ===== src/Tests/Data.antt =====
-- The trees that the tests run on.
use store.Prelude.{ℕ, none, some, [], ◌∷◌, refl, arith}
use store.Bytes.{compare_bytes}
use store.Memiavl.Node.{Node, leaf, branch, height, size}
use store.Memiavl.Node.Leaves.{entries, min_key}
use store.Memiavl.Node.Valid.{IsValid}

abbrev pub leaf_at : ℕ → Node
leaf_at k = leaf (k ∷ []) (some (k ∷ k ∷ [])) 1 none

-- Keys 3 and 5.
abbrev pub pair_tree : Node
pair_tree = branch 1 2 1 (5 ∷ []) none (leaf_at 3) (leaf_at 5)

-- Keys 1, 3 and 5, heavy on the right.
abbrev pub small_tree : Node
small_tree = branch 2 3 1 (3 ∷ []) none (leaf_at 1) pair_tree

pub small_tree-IsValid : IsValid small_tree
unfolding entries min_key height size compare_bytes
small_tree-IsValid = record {
  sorted = ((refl, (refl, tt)), ((refl, tt), (tt, tt)));
  keyed = (refl, tt, (refl, tt, tt));
  avl = (refl, refl, omega arith, omega arith, tt, (refl, refl, omega arith, omega arith, tt, tt));
}
