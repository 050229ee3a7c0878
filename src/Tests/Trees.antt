-- ===== src/Tests/Trees.antt =====
-- The node operations of memiavl at a small tree.
use store.Prelude.{◌+◌, ◌^◌, ◌<◌, none, some, [], ◌∷◌, ◌≡◌, refl, arith, Returns}
use store.Memiavl.SortedMap.{lookup, rank}
use store.Memiavl.Node.{
  height, size, set_recursive, remove_recursive, get, get_by_index, re_balance, update_height_size,
}
use store.Memiavl.Node.Balance.{IsRebalanced}
use store.Memiavl.Node.Leaves.{entries, min_key, HasLeaves}
use store.Memiavl.Node.Valid.{re_balance_lem}
use store.Memiavl.Node.Set.{HasInserted, set_recursive-HasInserted}
use store.Memiavl.Node.Remove.{HasRemoved, HasValues, remove_recursive-HasRemoved}
use store.Memiavl.Node.Read.{get_lem, get_by_index_lem}
use store.Tests.Data.{leaf_at, small_tree, small_tree-IsValid}

small : size small_tree + 1 < 2 ^ 32
unfolding size
small = omega arith

-- The key 7 goes to the right, and the tree rotates to the left.
set_recursive_example :
    Returns
      (set_recursive small_tree (7 ∷ []) (some []) 2)
      (HasInserted small_tree (7 ∷ []) (some []))
set_recursive_example =
    set_recursive-HasInserted small_tree (7 ∷ []) (some []) 2 small_tree-IsValid
      (omega (arith, small))

values : HasValues (entries small_tree)
unfolding entries
values = ((λ e. cc), ((λ e. cc), ((λ e. cc), tt)))

-- The smallest key of the right half goes, so the root gets the key 5.
remove_recursive_example :
    Returns (remove_recursive small_tree (3 ∷ []) 2) (HasRemoved small_tree (3 ∷ []))
remove_recursive_example =
    remove_recursive-HasRemoved small_tree (3 ∷ []) 2 small_tree-IsValid values
      (omega (arith, small))

get_example :
    get small_tree (4 ∷ [])
    ≡ (lookup (4 ∷ []) (entries small_tree), rank (4 ∷ []) (entries small_tree))
get_example = get_lem small_tree (4 ∷ []) small_tree-IsValid (omega (arith, small))

get_by_index_example : get_by_index small_tree 2 ≡ (some (5 ∷ []), some (5 ∷ 5 ∷ []))
unfolding entries
get_by_index_example = get_by_index_lem small_tree 2 small_tree-IsValid.avl (omega (arith, small))

re_balance_example :
    Returns
      (re_balance 2 (update_height_size 1 (1 ∷ []) none (leaf_at 0) small_tree))
      (λ t. IsRebalanced (leaf_at 0) small_tree t × HasLeaves (leaf_at 0) small_tree t)
re_balance_example =
    re_balance_lem 2 1 (1 ∷ []) none (leaf_at 0) small_tree tt small_tree-IsValid.avl
      (unfold height in omega arith) (unfold height in omega arith) (unfold size in omega arith)
      (unfold min_key in refl) tt small_tree-IsValid.keyed
