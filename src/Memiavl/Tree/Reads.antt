-- ===== src/Memiavl/Tree/Reads.antt =====
-- A tree of memiavl/tree.go with its cache: reads return what the sorted list of leaves has.
use store.Prelude.{
  ℕ, ◌^◌, ◌<◌, Option, none, some, List, ◌≡◌, inl, inr, refl, sym, ap, ◌∙◌, arith, length,
  Option-cases,
}
use store.Bytes.{Bytes}
use store.Memiavl.SortedMap.{Entry, lookup, rank}
use store.Memiavl.Node.{Node}
use store.Memiavl.Node.Valid.{size-length}
use store.Memiavl.Node.Read.{get_lem}
use store.Memiavl.Tree.{
  Cache, Tree, root_entries, tree_entries, root_get, get_with_index, get_miss, get_cached, tree_get,
}
use store.Memiavl.Tree.Writes.{IsValidRoot}
use store.Memiavl.Tree.Cached.{CacheLaws, IsCoherent, IsSound, IsCoherent-fill}

-- The index of a key is its rank among the keys of the tree.
pub get_with_index_lem :
    {S : Type 0} (t : Tree S) (key : Bytes)
    → IsValidRoot t.root
    → length (tree_entries t) < 2 ^ 32
    → get_with_index t key ≡ (rank key (tree_entries t), lookup key (tree_entries t))
unfolding get_with_index tree_entries
get_with_index_lem t key h n = at_root t.root h n
  where
    at_root :
        (root : Option Node)
        → IsValidRoot root
        → length (root_entries root) < 2 ^ 32
        → root_get root key ≡ (rank key (root_entries root), lookup key (root_entries root))
    at_root none h n = unfold rank lookup in refl
    at_root (some node) h n =
        let e = get_lem node key h.0 (omega (arith, size-length node h.0.avl)) in rw e

module _ (c : Cache) (laws : CacheLaws c) where
  open c use {State, add, remove, find, touch}

  -- `Get` returns what the list has under the key, from the cache or not, and changes nothing else.
  pub record HasRead (t : Tree State) (key : Bytes) (r : Option Bytes × Tree State) : Type 0 where
    pub value : r.0 ≡ lookup key (tree_entries t)
    pub sound : IsSound c laws r.1
    pub same_root : r.1.root ≡ t.root
    pub same_version : r.1.version ≡ t.version

  get_miss_lem :
      (key : Bytes) (t : Tree State)
      → IsSound c laws t
      → length (tree_entries t) < 2 ^ 32
      → HasRead t key (get_miss c key t)
  unfolding get_miss
  get_miss_lem key t h n =
      let e : (get_with_index t key).1 ≡ lookup key (tree_entries t) =
        ap (λ (p : ℕ × Option Bytes). p.1) (get_with_index_lem t key h.root_valid n) in
      elim (Option-cases (get_with_index t key).1) [
        | inl absent ↦
            rw (absent, get_miss)
              (record { value = sym absent ∙ e; sound = h; same_root = refl; same_version = refl })
        | inr (v, found) ↦
            rw (found, get_miss)
              (record {
                value = sym found ∙ e;
                sound = record {
                  root_valid = h.root_valid;
                  coherent =
                      unfold tree_entries in
                      IsCoherent-fill c laws (tree_entries t) key (some v) t.cache (sym e ∙ found)
                        h.coherent;
                };
                same_root = refl;
                same_version = refl;
              })
      ]

  touch-IsCoherent :
      (m : List Entry) (key : Bytes) (s : State)
      → IsCoherent c laws m (some s)
      → IsCoherent c laws m (some (touch key s))
  touch-IsCoherent m key s h j w e = h j w (laws.find_touch j key w s e)

  get_cached_lem :
      (key : Bytes) (t : Tree State) (o : Option State)
      → IsSound c laws t
      → IsCoherent c laws (tree_entries t) o
      → length (tree_entries t) < 2 ^ 32
      → HasRead t key (get_cached c key t o)
  unfolding get_cached tree_entries
  get_cached_lem key t none h k n = get_miss_lem key t h n
  get_cached_lem key t (some s) h k n =
      let touched = touch-IsCoherent (tree_entries t) key s k in
      elim (Option-cases (find key s)) [
        | inl missed ↦
            let t' : Tree State = record t { cache = some (touch key s) } in
            let sound : IsSound c laws t' = record {
              root_valid = h.root_valid;
              coherent = unfold tree_entries in touched;
            } in
            let r = get_miss_lem key t' sound n in
            rw (missed, get_cached)
              (record {
                value = r.value;
                sound = r.sound;
                same_root = r.same_root;
                same_version = r.same_version;
              })
        | inr (v, hit) ↦
            rw (hit, get_cached)
              (record {
                value = sym (k key v hit);
                sound = record {
                  root_valid = h.root_valid;
                  coherent = unfold tree_entries in touched;
                };
                same_root = refl;
                same_version = refl;
              })
      ]

  -- For a cache that meets the laws, on a tree whose root is valid, whose cache holds only
  -- values of the tree and which has fewer than 2 ^ 32 leaves, `Get` returns the value that
  -- the sorted list of leaves has under the key, from the cache or not; root and version are
  -- unchanged, and the cache still holds only values of the tree.
  pub tree_get_lem :
      (key : Bytes) (t : Tree State)
      → IsSound c laws t
      → length (tree_entries t) < 2 ^ 32
      → HasRead t key (tree_get c key t)
  unfolding tree_get
  tree_get_lem key t h n = get_cached_lem key t t.cache h h.coherent n
