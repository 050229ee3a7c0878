-- ===== src/Memiavl/Tree/Cached.antt =====
-- A tree of memiavl/tree.go with its cache: the cache holds only values that the tree has, so that
-- reads and writes act as on the sorted list of leaves.
use mathlib.Core.Option
use store.Prelude.{
  ◌+◌, ◌%◌, ◌^◌, ◌≤◌, ◌<◌, Option, none, some, List, [], ◌∷◌, ◌≡◌, ◌≢◌, ◌⊎◌, inl, inr, refl, ap,
  ◌∙◌, arith, length, Returns, Returns-bind, Returns_imp, Bool-cases,
}
use store.Bytes.{Bytes}
use store.Memiavl.SortedMap.{Entry, insert, delete, lookup}
use store.Memiavl.SortedMap.Laws.{lookup-insert_self, lookup-insert_ne, lookup-delete_ne}
use store.Memiavl.Node.{set_root, remove_root}
use store.Memiavl.Tree.{
  Cache, KvPair, Tree, non_nil, tree_set, tree_remove, apply_pair, apply_change_set, root_entries,
  tree_entries,
}
use store.Memiavl.Tree.Writes.{
  IsValidRoot, apply_entry, apply_entries, set_root_lem, remove_root_lem,
}

-- What the library relies on of the cache: it answers with the last value added for a key, and only
-- if the key was not removed since. It may forget any key at any time.
pub record CacheLaws (c : Cache) : Type 0 where
  pub find_add :
      (j k : Bytes) (v w : Option Bytes) (s : c.State)
      → c.find j (c.add k v s) ≡ some w
      → ((k ≡ j) × (w ≡ v)) ⊎ ((k ≢ j) × (c.find j s ≡ some w))
  pub find_remove :
      (j k : Bytes) (w : Option Bytes) (s : c.State)
      → c.find j (c.remove k s) ≡ some w
      → (k ≢ j) × (c.find j s ≡ some w)
  pub find_touch :
      (j k : Bytes) (w : Option Bytes) (s : c.State)
      → c.find j (c.touch k s) ≡ some w
      → c.find j s ≡ some w

length-insert :
    (k : Bytes) (v : Option Bytes) (m : List Entry) → length (insert k v m) ≤ length m + 1
unfolding insert
length-insert k v [] = omega arith
length-insert k v ((j, w) ∷ m) = ground (arith, length-insert k v m)

length-delete : (k : Bytes) (m : List Entry) → length (delete k m) ≤ length m
unfolding delete
length-delete k [] = omega arith
length-delete k ((j, w) ∷ m) = ground (arith, length-delete k m)

pub length-apply_entry :
    (pair : KvPair) (m : List Entry) → length (apply_entry pair m) ≤ length m + 1
unfolding apply_entry
length-apply_entry pair m =
    ground (arith, length-insert pair.key (non_nil pair.value) m, length-delete pair.key m)

module _ (c : Cache) (laws : CacheLaws c) where
  open c use {State, add, remove, find, touch}

  -- Every value in the cache is the one that the list has.
  abbrev pub IsCoherent : List Entry → Option State → Type 0
  IsCoherent m none = Unit
  IsCoherent m (some s) = (k : Bytes) (w : Option Bytes) → find k s ≡ some w → lookup k m ≡ w

  pub record IsSound (t : Tree State) : Type 0 where
    pub root_valid : IsValidRoot t.root
    pub coherent : IsCoherent (tree_entries t) t.cache

  IsCoherent-add :
      (m : List Entry) (k : Bytes) (v : Option Bytes) (s : Option State)
      → IsCoherent m s
      → IsCoherent (insert k v m) (Option.map (add k v) s)
  IsCoherent-add m k v none h = tt
  IsCoherent-add m k v (some s) h = λ j w e. elim (laws.find_add j k v w s e) [
    | inl (same, value) ↦ rw (← same, value) (lookup-insert_self k v m)
    | inr (other, old) ↦ lookup-insert_ne k j v m other ∙ h j w old
  ]

  IsCoherent-remove :
      (m : List Entry) (k : Bytes) (s : Option State)
      → IsCoherent m s
      → IsCoherent (delete k m) (Option.map (remove k) s)
  IsCoherent-remove m k none h = tt
  IsCoherent-remove m k (some s) h = λ j w e.
      let (other, old) = laws.find_remove j k w s e in lookup-delete_ne k j m other ∙ h j w old

  -- A value that was read may be cached.
  pub IsCoherent-fill :
      (m : List Entry) (k : Bytes) (v : Option Bytes) (s : Option State)
      → lookup k m ≡ v
      → IsCoherent m s
      → IsCoherent m (Option.map (add k v) s)
  IsCoherent-fill m k v none l h = tt
  IsCoherent-fill m k v (some s) l h = λ j w e. elim (laws.find_add j k v w s e) [
    | inl (same, value) ↦ rw (← same, value) l
    | inr (other, old) ↦ h j w old
  ]

  -- The result of a write: the invariant, the new list, and the version as it was.
  pub record HasWritten (t : Tree State) (m : List Entry) (t' : Tree State) : Type 0 where
    pub sound : IsSound t'
    pub written : tree_entries t' ≡ m
    pub kept : t'.version ≡ t.version

  set_bytes :
      (key v : Bytes) (t : Tree State)
      → IsSound t
      → length (tree_entries t) + 1 < 2 ^ 63
      → Returns (tree_set c key (some v) t) (HasWritten t (insert key (some v) (tree_entries t)))
  unfolding tree_set tree_entries
  set_bytes key v t h n =
      Returns-bind _ _ (set_root t.root key (some v) ((t.version + 1) % 2 ^ 64)) _
        (set_root_lem t.root key v ((t.version + 1) % 2 ^ 64) h.root_valid n)
        λ r (valid, e). record {
          sound = record {
            root_valid = valid;
            coherent =
                unfold root_entries in
                rw e (
                  IsCoherent-add (unfold root_entries in root_entries t.root) key (some v) t.cache
                    h.coherent);
          };
          written = unfold root_entries in e;
          kept = refl;
        }

  pub tree_set_lem :
      (key : Bytes) (value : Option Bytes) (t : Tree State)
      → IsSound t
      → length (tree_entries t) + 1 < 2 ^ 63
      → Returns
          (tree_set c key value t)
          (HasWritten t (insert key (non_nil value) (tree_entries t)))
  unfolding tree_set non_nil
  tree_set_lem key none t h n = set_bytes key [] t h n
  tree_set_lem key (some v) t h n = set_bytes key v t h n

  pub tree_remove_lem :
      (key : Bytes) (t : Tree State)
      → IsSound t
      → length (tree_entries t) < 2 ^ 63
      → Returns (tree_remove c key t) (HasWritten t (delete key (tree_entries t)))
  unfolding tree_remove tree_entries
  tree_remove_lem key t h n =
      Returns-bind _ _ (remove_root t.root key ((t.version + 1) % 2 ^ 64)) _
        (remove_root_lem t.root key ((t.version + 1) % 2 ^ 64) h.root_valid n)
        λ r (v, e, _). record {
          sound = record {
            root_valid = v;
            coherent = rw e (IsCoherent-remove (root_entries t.root) key t.cache h.coherent);
          };
          written = e;
          kept = refl;
        }

  pub apply_pair_lem :
      (pair : KvPair) (t : Tree State)
      → IsSound t
      → length (tree_entries t) + 1 < 2 ^ 63
      → Returns (apply_pair c pair t) (HasWritten t (apply_entry pair (tree_entries t)))
  unfolding apply_pair apply_entry
  apply_pair_lem pair t h n = elim (Bool-cases pair.delete) [
    | inl e ↦ rw e (tree_remove_lem pair.key t h (omega arith))
    | inr e ↦ rw e (tree_set_lem pair.key pair.value t h n)
  ]

  -- For a cache that meets the laws, on a tree whose root is valid and whose cache holds only
  -- values of the tree, and with room below 2 ^ 63 for the pairs, `ApplyChangeSet` returns;
  -- the tree's leaves are the old ones after the pairs in their order, root and cache are
  -- still in step, and the version is unchanged.
  pub apply_change_set_lem :
      (pairs : List KvPair) (t : Tree State)
      → IsSound t
      → length (tree_entries t) + length pairs < 2 ^ 63
      → Returns (apply_change_set c pairs t) (HasWritten t (apply_entries pairs (tree_entries t)))
  unfolding apply_change_set apply_entries
  apply_change_set_lem [] t h n = record { sound = h; written = refl; kept = refl }
  apply_change_set_lem (pair ∷ pairs) t h n =
      Returns-bind (HasWritten t (apply_entry pair (tree_entries t))) _ (apply_pair c pair t) _
        (apply_pair_lem pair t h (omega arith))
        λ t' r.
          Returns_imp (HasWritten t' (apply_entries pairs (tree_entries t'))) _ _
            (λ t'' q. record {
              sound = q.sound;
              written = q.written ∙ ap (apply_entries pairs) r.written;
              kept = q.kept ∙ r.kept;
            })
            (apply_change_set_lem pairs t' r.sound
              (omega (arith, ap length r.written, length-apply_entry pair (tree_entries t))))
