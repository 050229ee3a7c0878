-- ===== src/Memiavl/MultiTree.antt =====
-- memiavl/multitree.go: the trees of an application under their names, and their commits. Names are
-- byte strings. The cache of a tree, the function that makes a new one, and SHA-256 are parameters.
-- A failed operation leaves the trees as they were at its error.
pub mod Names
pub mod Upgrades
pub mod Kept
pub mod Consistent
pub mod Same
pub mod Changes
pub mod Replay
use Prim.Native.Nat.{Ordering}
use store.Prelude.{
  ℕ, zero, suc, ◌+◌, ◌-◌, Bool, true, false, Option, none, some, List, [], ◌∷◌, ◌++◌, ltb, ◌==◌,
  length, get_elem?, take, if◌then◌else◌, map,
}
use store.Prelude.Int.{ℤ, pos, negsuc}
use store.Bytes.{Bytes, compare_bytes}
use store.Memiavl.Tree.{
  Cache, KvPair, Tree, max_int64, new_with_initial_version, is_empty, set_initial_version_uint,
  apply_change_set, root_hash, save_version,
}
use store.Memiavl.Versions.{next_version}

pub record NamedTree (S : Type 0) : Type 0 where
  pub tree : Tree S
  pub name : Bytes

pub record StoreInfo : Type 0 where
  pub name : Bytes
  pub version : ℕ
  pub hash : Bytes

pub record CommitInfo : Type 0 where
  pub version : ℕ
  pub store_infos : List StoreInfo

pub record TreeNameUpgrade : Type 0 where
  pub name : Bytes
  pub rename_from : Bytes
  pub delete : Bool

pub record NamedChangeSet : Type 0 where
  pub name : Bytes
  pub changeset : List KvPair

pub record MultiTree (S : Type 0) : Type 0 where
  pub initial_version : ℕ
  pub cache_size : ℕ
  pub trees : List (NamedTree S)
  pub trees_by_name : List (Bytes × ℕ)
  pub last_commit_info : CommitInfo

pub data Error : Type 0 where
  unknown_tree : Bytes → Error
  name_conflict : Bytes → Error
  tree_not_empty : Bytes → Error
  version_overflow negative_version not_empty : Error
  target_pruned : ℕ → Error
  no_last_index : Error
  read_failed : ℕ → Error

-- What an operation on a state does: it returns, returns an error, or panics.
pub data Outcome (A : Type 0) : Type 0 where
  done : A → Outcome A
  failed : Error → A → Outcome A
  panicked : Outcome A

infixl 5 ◌>>=◌
abbrev pub ◌>>=◌ : {A : Type 0} → Outcome A → (A → Outcome A) → Outcome A
done a >>= f = f a
failed e a >>= f = failed e a
panicked >>= f = panicked

-- The operation on a part of the state.
abbrev pub map_outcome : {A B : Type 0} → (A → B) → Outcome A → Outcome B
map_outcome f (done a) = done (f a)
map_outcome f (failed e a) = failed e (f a)
map_outcome f panicked = panicked

unfoldable pub same_name : Bytes → Bytes → Bool
same_name a b = elim (compare_bytes a b) [ Ordering.eq ↦ true | _ ↦ false ]

-- A lookup in `treesByName`.
unfoldable pub find_index : Bytes → List (Bytes × ℕ) → Option ℕ
unfolding same_name
find_index name [] = none
find_index name ((n, i) ∷ index) = if same_name n name then some i else find_index name index

module _ {S : Type 0} where
  unfoldable pub new_empty_multi_tree : ℕ → ℕ → MultiTree S
  new_empty_multi_tree initial_version cache_size = record {
    initial_version = initial_version;
    cache_size = cache_size;
    trees = [];
    trees_by_name = [];
    last_commit_info = record { version = 0; store_infos = [] };
  }

  -- `TreeByName`; an index out of range would panic.
  unfoldable pub tree_at : MultiTree S → Option ℕ → Option (Option (Tree S))
  tree_at t none = some none
  tree_at t (some i) = elim (get_elem? t.trees i) [
    | none ↦ none
    | some entry ↦ some (some entry.tree)
  ]

  unfoldable pub tree_by_name : Bytes → MultiTree S → Option (Option (Tree S))
  unfolding tree_at find_index
  tree_by_name name t = tree_at t (find_index name t.trees_by_name)

  -- `slices.IndexFunc` with the test of a name.
  unfoldable pub index_of : Bytes → List (NamedTree S) → Option ℕ
  unfolding same_name
  index_of name [] = none
  index_of name (entry ∷ trees) =
      if same_name entry.name name
      then some 0
      else elim (index_of name trees) [ none ↦ none | some i ↦ some (suc i) ]

  -- A write at an index in range.
  unfoldable pub write_at :
      List (NamedTree S) → ℕ → (NamedTree S → NamedTree S) → List (NamedTree S)
  write_at [] i f = []
  write_at (entry ∷ trees) zero f = f entry ∷ trees
  write_at (entry ∷ trees) (suc i) f = entry ∷ write_at trees i f

  -- The swap of the tree at an index with the last one, which is then cut off.
  unfoldable pub swap_delete : List (NamedTree S) → ℕ → List (NamedTree S)
  unfolding write_at
  swap_delete trees i = elim (get_elem? trees (length trees - 1)) [
    | none ↦ trees
    | some last ↦ take (length trees - 1) (write_at trees i (λ _. last))
  ]

  unfoldable pub rename : Bytes → NamedTree S → NamedTree S
  rename name entry = record entry { name = name }

  -- One round of the loop of `ApplyUpgrades`; `version` is the next one, and `cache` a new cache.
  unfoldable pub apply_upgrade :
      ℕ → Option S → TreeNameUpgrade → List (NamedTree S) → Outcome (List (NamedTree S))
  unfolding index_of swap_delete rename
  apply_upgrade version cache upgrade trees =
      if upgrade.delete
      then elim (index_of upgrade.name trees) [
        | none ↦ failed (unknown_tree upgrade.name) trees
        | some i ↦ done (swap_delete trees i)
      ]
      else if ltb 0 (length upgrade.rename_from)
      then elim (index_of upgrade.rename_from trees) [
        | none ↦ failed (unknown_tree upgrade.rename_from) trees
        | some i ↦ done (write_at trees i (rename upgrade.name))
      ]
      else done (
          trees
          ++ (record { tree = new_with_initial_version version cache; name = upgrade.name } ∷ []))

  unfoldable pub upgrade_loop :
      ℕ → Option S → List TreeNameUpgrade → List (NamedTree S) → Outcome (List (NamedTree S))
  unfolding apply_upgrade
  upgrade_loop version cache [] trees = done trees
  upgrade_loop version cache (upgrade ∷ upgrades) trees =
      apply_upgrade version cache upgrade trees >>= upgrade_loop version cache upgrades

  -- `sort.SliceStable` by name: equal names keep their order.
  unfoldable pub insert_by_name : NamedTree S → List (NamedTree S) → List (NamedTree S)
  insert_by_name entry [] = entry ∷ []
  insert_by_name entry (other ∷ trees) = elim (compare_bytes other.name entry.name) [
    | Ordering.lt ↦ other ∷ insert_by_name entry trees
    | _ ↦ entry ∷ other ∷ trees
  ]

  unfoldable pub sort_by_name : List (NamedTree S) → List (NamedTree S)
  unfolding insert_by_name
  sort_by_name [] = []
  sort_by_name (entry ∷ trees) = insert_by_name entry (sort_by_name trees)

  -- The loop that builds `treesByName` from index `i` on; a name that is there is an error.
  unfoldable pub build_index :
      ℕ → List (NamedTree S) → List (Bytes × ℕ) → Outcome (List (Bytes × ℕ))
  unfolding find_index
  build_index i [] index = done index
  build_index i (entry ∷ trees) index =
      let rest = build_index (i + 1) trees ((entry.name, i) ∷ index) in
      elim (find_index entry.name index) [
        | some j ↦ failed (name_conflict entry.name) index
        | none ↦ rest
      ]

  -- The end of `ApplyUpgrades`: the trees are sorted and the index is built again.
  unfoldable pub reindex : MultiTree S → Outcome (MultiTree S)
  unfolding sort_by_name build_index
  reindex t =
      map_outcome (λ index. record t { trees = sort_by_name t.trees; trees_by_name = index })
        (build_index 0 (sort_by_name t.trees) [])

module _ {S : Type 0} (new_cache : ℕ → Option S) where
  unfoldable pub apply_upgrades : List TreeNameUpgrade → MultiTree S → Outcome (MultiTree S)
  unfolding upgrade_loop reindex
  apply_upgrades [] t = done t
  apply_upgrades (upgrade ∷ upgrades) t =
      let version = next_version t.last_commit_info.version t.initial_version in
      map_outcome (λ trees. record t { trees = trees; trees_by_name = [] })
        (upgrade_loop version (new_cache t.cache_size) (upgrade ∷ upgrades) t.trees)
      >>= reindex

module _ {S : Type 0} where
  unfoldable pub set_initial_versions : ℕ → List (NamedTree S) → List (NamedTree S)
  unfolding set_initial_version_uint
  set_initial_versions initial_version [] = []
  set_initial_versions initial_version (entry ∷ trees) =
      record entry { tree = set_initial_version_uint initial_version entry.tree }
      ∷ set_initial_versions initial_version trees

  -- `setInitialVersion`
  unfoldable pub start_at : ℕ → MultiTree S → MultiTree S
  unfolding set_initial_versions
  start_at initial_version t =
      let t' : MultiTree S = record t { initial_version = initial_version } in
      if ltb 1 initial_version
      then record t' { trees = set_initial_versions initial_version t.trees }
      else t'

  -- The first tree that is not empty.
  unfoldable pub first_not_empty : List (NamedTree S) → Option Bytes
  unfolding is_empty
  first_not_empty [] = none
  first_not_empty (entry ∷ trees) =
      if is_empty entry.tree then first_not_empty trees else some entry.name

  -- `SetInitialVersion`
  unfoldable pub multi_set_initial_version : ℤ → MultiTree S → Outcome (MultiTree S)
  unfolding start_at first_not_empty
  multi_set_initial_version (negsuc n) t = failed negative_version t
  multi_set_initial_version (pos n) t =
      if t.last_commit_info.version == 0
      then elim (first_not_empty t.trees) [
        | some name ↦ failed (tree_not_empty name) t
        | none ↦ done (start_at n t)
      ]
      else failed not_empty t
