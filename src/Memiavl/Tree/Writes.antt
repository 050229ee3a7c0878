-- ===== src/Memiavl/Tree/Writes.antt =====
-- Writes to a tree of memiavl/tree.go keep its invariant, and act on its sorted list of leaves.
use store.Prelude.{
  ℕ, ◌+◌, ◌^◌, ◌<◌, Option, none, some, List, [], ◌∷◌, ◌≡◌, ◌≢◌, refl, sym, arith, length, Returns,
  Returns_imp, if◌then◌else◌,
}
use store.Bytes.{Bytes}
use store.Bytes.Order.{compare_bytes_refl}
use store.Memiavl.SortedMap.{Entry, insert, delete, lookup}
use store.Memiavl.SortedMap.Laws.{
  insert-IsSorted, delete-IsSorted, All-insert, All-delete, delete_absent,
}
use store.Memiavl.Node.{Node, set_root, remove_root, new_leaf_node}
use store.Memiavl.Node.Leaves.{entries}
use store.Memiavl.Node.Valid.{IsValid, size-length}
use store.Memiavl.Node.Set.{HasInserted, set_recursive-HasInserted}
use store.Memiavl.Node.Remove.{IsRemoval, HasRemoved, HasValues, remove_recursive-HasRemoved}
use store.Memiavl.Tree.{KvPair, non_nil, root_entries}

abbrev pub IsValidRoot : Option Node → Type 0
IsValidRoot none = Unit
IsValidRoot (some node) = IsValid node × HasValues (entries node)

-- The abstract effect of a pair, and of a change set.
unfoldable pub apply_entry : KvPair → List Entry → List Entry
apply_entry pair m =
    if pair.delete then delete pair.key m else insert pair.key (non_nil pair.value) m

unfoldable pub apply_entries : List KvPair → List Entry → List Entry
apply_entries [] m = m
apply_entries (pair ∷ pairs) m = apply_entries pairs (apply_entry pair m)

pub set_root_lem :
    (root : Option Node) (key v : Bytes) (version : ℕ)
    → IsValidRoot root
    → length (root_entries root) + 1 < 2 ^ 63
    → Returns
        (set_root root key (some v) version)
        (λ r. IsValidRoot (some r.0) × (entries r.0 ≡ insert key (some v) (root_entries root)))
unfolding set_root root_entries
set_root_lem none key v version h n =
    unfold new_leaf_node entries insert in
    ((record { sorted = (tt, tt); keyed = tt; avl = tt }, (λ e. cc, tt)), refl)
set_root_lem (some t) key v version (valid, values) n =
    Returns_imp (HasInserted t key (some v)) _ _
      (λ r x. (
        (
          record {
            sorted = rw x.same (insert-IsSorted key (some v) (entries t) valid.sorted);
            keyed = x.keyed;
            avl = x.avl;
          },
          rw x.same (All-insert (λ e. e.1 ≢ none) key (some v) (entries t) (λ j e. cc) values),
        ),
        x.same,
      ))
      (set_recursive-HasInserted t key (some v) version valid
        (omega (arith, size-length t valid.avl)))

-- The three results of a removal.
removal_lem :
    (t : Node) (key : Bytes)
    → IsValid t
    → HasValues (entries t)
    → (value : Option Bytes) (node : Option Node) (new_key : Option Bytes)
    → IsRemoval t key value node new_key
    → IsValidRoot node
      × (root_entries node ≡ delete key (entries t))
      × (value ≡ lookup key (entries t))
unfolding root_entries
removal_lem t key valid values none _ new_key (absent, same, e) =
    rw same ((valid, values), sym (delete_absent key (entries t) values absent), sym absent)
removal_lem t key valid values (some x) none new_key r = rw r.only (
  tt,
  (unfold delete in ground (arith, compare_bytes_refl key)),
  (unfold lookup in ground (arith, compare_bytes_refl key)),
)
removal_lem t key valid values (some x) (some t') new_key r = (
  (
    record {
      sorted = rw r.same (delete-IsSorted key (entries t) valid.sorted);
      keyed = r.keyed;
      avl = r.avl;
    },
    rw r.same (All-delete (λ e. e.1 ≢ none) key (entries t) values),
  ),
  r.same,
  sym r.found,
)

pub remove_root_lem :
    (root : Option Node) (key : Bytes) (version : ℕ)
    → IsValidRoot root
    → length (root_entries root) < 2 ^ 63
    → Returns (remove_root root key version) (λ r.
      IsValidRoot r.node
      × (root_entries r.node ≡ delete key (root_entries root))
      × (r.value ≡ lookup key (root_entries root)))
unfolding remove_root root_entries
remove_root_lem none key version h n = unfold delete lookup in (tt, refl, refl)
remove_root_lem (some t) key version (valid, values) n =
    Returns_imp (HasRemoved t key) _ _
      (λ r. unfold root_entries in removal_lem t key valid values r.value r.node r.new_key)
      (remove_recursive-HasRemoved t key version valid values
        (omega (arith, size-length t valid.avl)))
