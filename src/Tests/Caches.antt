-- ===== src/Tests/Caches.antt =====
-- A tree with a cache, and an iterator over it, at a small tree.
use store.Prelude.{
  Option, none, some, List, [], ◌∷◌, ◌≡◌, refl, arith, Returns, true, false, map, length,
}
use store.Bytes.{Bytes, compare_bytes}
use store.Memiavl.SortedMap.{lookup}
use store.Memiavl.Node.Leaves.{entries}
use store.Memiavl.Tree.{KvPair, Tree, tree_entries, root_entries, apply_change_set, tree_get}
use store.Memiavl.Tree.Writes.{IsValidRoot, apply_entries}
use store.Memiavl.Tree.Cached.{IsSound, HasWritten, apply_change_set_lem}
use store.Memiavl.Tree.Reads.{HasRead, tree_get_lem}
use store.Memiavl.Iterator.{node_count, stack_count, new_iterator, collect}
use store.Memiavl.Iterator.Range.{in_order, in_domain}
use store.Memiavl.Iterator.Visits.{collect-new_iterator}
use store.Tests.Data.{small_tree, small_tree-IsValid}
use store.Tests.OneSlot.{one_slot, one_slot-CacheLaws, Slot, find_slot}

small_root-IsValidRoot : IsValidRoot (some small_tree)
unfolding entries
small_root-IsValidRoot = (small_tree-IsValid, ((λ e. cc), ((λ e. cc), ((λ e. cc), tt))))

-- The key 3 is in the cache.
abbrev pub cached_tree : Tree Slot
cached_tree = record {
  version = 4;
  cow_version = 0;
  root = some small_tree;
  cache = some (some (3 ∷ [], some (3 ∷ 3 ∷ [])));
  zero_copy = true;
}

cached_value :
    (k : Bytes) (w : Option Bytes)
    → one_slot.find k (some (3 ∷ [], some (3 ∷ 3 ∷ []))) ≡ some w
    → lookup k (entries small_tree) ≡ w
unfolding entries lookup
cached_value k w h =
    let (same, value) = find_slot k (3 ∷ []) (some (3 ∷ 3 ∷ [])) w h in
    rw (← same, value) (unfold compare_bytes in refl)

pub cached_tree-IsSound : IsSound one_slot one_slot-CacheLaws cached_tree
unfolding tree_entries root_entries entries lookup
cached_tree-IsSound = record {
  root_valid = small_root-IsValidRoot;
  coherent = λ k w h. cached_value k w h;
}

few : length (tree_entries cached_tree) ≡ 3
unfolding tree_entries root_entries entries
few = refl

-- One key is replaced while it is cached, one goes, one is new.
abbrev changes : List KvPair
changes =
    record { delete = false; key = 3 ∷ []; value = none }
    ∷ record { delete = true; key = 1 ∷ []; value = none }
    ∷ record { delete = false; key = 9 ∷ []; value = some (9 ∷ []) }
    ∷ []

apply_change_set_example : Returns (apply_change_set one_slot changes cached_tree) (
    HasWritten one_slot one_slot-CacheLaws cached_tree
      (apply_entries changes (tree_entries cached_tree)))
apply_change_set_example =
    apply_change_set_lem one_slot one_slot-CacheLaws changes cached_tree cached_tree-IsSound
      (omega (arith, few))

tree_get_example :
    HasRead one_slot one_slot-CacheLaws cached_tree
      (3 ∷ [])
      (tree_get one_slot (3 ∷ []) cached_tree)
tree_get_example =
    tree_get_lem one_slot one_slot-CacheLaws (3 ∷ []) cached_tree cached_tree-IsSound
      (omega (arith, few))

-- Downwards from below 5 to 2.
collect-new_iterator_example :
    collect 9 (new_iterator (some (2 ∷ [])) (some (5 ∷ [])) false (some small_tree))
    ≡ map some (
        in_order false (in_domain (some (2 ∷ [])) (some (5 ∷ [])) (root_entries (some small_tree))))
collect-new_iterator_example =
    collect-new_iterator (some (2 ∷ [])) (some (5 ∷ [])) false (some small_tree) 9
      small_root-IsValidRoot (unfold stack_count node_count in omega arith)
