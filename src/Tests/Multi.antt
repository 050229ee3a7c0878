-- ===== src/Tests/Multi.antt =====
-- The operations of a multi-tree, at one that holds a small tree.
use store.Prelude.{
  ℕ, ◌==◌, if◌then◌else◌, true, false, Option, none, some, List, [], ◌∷◌, ◌≡◌, refl, arith,
}
use store.Bytes.{Bytes}
use store.Memiavl.Node.Leaves.{entries}
use store.Memiavl.Tree.{tree_entries, root_entries}
use store.Memiavl.Versions.{next_version}
use store.Memiavl.MultiTree.{
  TreeNameUpgrade, NamedChangeSet, MultiTree, apply_upgrades, find_index, index_of,
}
use store.Memiavl.MultiTree.Names.{Ends}
use store.Memiavl.MultiTree.Consistent.{
  NewCacheLaws, IsConsistent, HasUpgraded, IsLeft, apply_upgrades-IsConsistent,
}
use store.Memiavl.MultiTree.Changes.{apply_change_sets, multi_save_version}
use store.Memiavl.MultiTree.Changes.Views.{table_of, change_tables, total_pairs}
use store.Memiavl.MultiTree.Changes.Applied.{HasChanged, IsUnknown, apply_change_sets_lem}
use store.Memiavl.MultiTree.Changes.Saved.{HasCommitted, multi_save_version_lem}
use store.Memiavl.MultiTree.Replay.{Wal, WalEntry}
use store.Tests.OneSlot.{one_slot, one_slot-CacheLaws, Slot}
use store.Tests.Caches.{cached_tree, cached_tree-IsSound}

abbrev nine : Bytes → Bytes
nine bz = 9 ∷ bz

abbrev new_slot : ℕ → Option Slot
new_slot size = some none

new_slot-NewCacheLaws : NewCacheLaws one_slot new_slot
new_slot-NewCacheLaws = record { find_new = λ size s k w e f. nothing s k w e f }
  where
    nothing :
        (s : Slot) (k : Bytes) (w : Option Bytes)
        → some none ≡ some s
        → one_slot.find k s ≡ some w
        → ⊥
    nothing none k w e f = cc
    nothing (some p) k w e f = cc

abbrev bank : Bytes
bank = 98 ∷ []

abbrev one_store : MultiTree Slot
one_store = record {
  initial_version = 0;
  cache_size = 10;
  trees = record { tree = cached_tree; name = bank } ∷ [];
  trees_by_name = (bank, 0) ∷ [];
  last_commit_info = record { version = 4; store_infos = [] };
}

one_store-IsConsistent : IsConsistent one_slot one_slot-CacheLaws nine one_store
unfolding find_index index_of next_version
one_store-IsConsistent = record {
  indexed = record { ascending = (tt, tt); exact = exact };
  ready = (record { sound = cached_tree-IsSound; fresh = (tt, tt, (tt, tt, tt)); next = refl }, tt);
}
  where
    exact : (name : Bytes) → find_index name one_store.trees_by_name ≡ index_of name one_store.trees
    exact name = ground arith

abbrev renamed : List TreeNameUpgrade
renamed =
    record { name = 97 ∷ []; rename_from = bank; delete = false }
    ∷ record { name = 99 ∷ []; rename_from = []; delete = false }
    ∷ []

apply_upgrades_example :
    Ends
      (apply_upgrades new_slot renamed one_store)
      (HasUpgraded one_slot one_slot-CacheLaws nine new_slot new_slot-NewCacheLaws one_store)
      (IsLeft one_slot one_slot-CacheLaws nine new_slot new_slot-NewCacheLaws one_store)
apply_upgrades_example =
    apply_upgrades-IsConsistent one_slot one_slot-CacheLaws nine new_slot new_slot-NewCacheLaws
      renamed one_store one_store-IsConsistent (omega arith)

abbrev sets : List NamedChangeSet
sets =
    record { name = bank; changeset = record { delete = true; key = 1 ∷ []; value = none } ∷ [] }
    ∷ []

apply_change_sets_example :
    Ends
      (apply_change_sets one_slot sets one_store)
      (HasChanged one_slot one_slot-CacheLaws nine one_store
        (change_tables sets (table_of one_store.trees)))
      (IsUnknown one_slot one_slot-CacheLaws nine one_store)
apply_change_sets_example =
    apply_change_sets_lem one_slot one_slot-CacheLaws nine sets one_store one_store-IsConsistent
      (unfold total_pairs tree_entries root_entries entries in (omega arith, tt))

multi_save_version_example :
    Ends
      (multi_save_version nine true one_store)
      (HasCommitted one_slot one_slot-CacheLaws nine true one_store)
      (λ e _. ⊥)
multi_save_version_example =
    multi_save_version_lem one_slot one_slot-CacheLaws nine true one_store one_store-IsConsistent
      (omega arith) (omega arith)

-- The log has the entries 5, which renames the store, and 6, which changes it.
abbrev later_sets : List NamedChangeSet
later_sets =
    record { name = 97 ∷ []; changeset = record { delete = true; key = 1 ∷ []; value = none } ∷ [] }
    ∷ []

abbrev read_two : ℕ → Option WalEntry
read_two i =
    if i == 5
    then some (record { upgrades = renamed; changesets = [] })
    else if i == 6
    then some (record { upgrades = []; changesets = later_sets })
    else none

abbrev two_entries : Wal
two_entries = record { index_fails = false; last_index = 6; read = read_two }
