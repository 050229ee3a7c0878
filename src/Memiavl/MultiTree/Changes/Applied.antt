-- ===== src/Memiavl/MultiTree/Changes/Applied.antt =====
-- `ApplyChangeSets` of memiavl/multitree.go: the sorted lists under the names change as the sets say.
use store.Prelude.{
  ℕ, ◌+◌, ◌^◌, ◌<◌, Option, none, some, List, [], ◌∷◌, ◌≡◌, refl, sym, ap, ◌∙◌, arith, All-imp,
  Option-cases, inl, inr, length, Returns_inv, Returns-IfReturns,
}
use store.Bytes.{Bytes}
use store.Memiavl.Node.Hash.Writes.{IsFreshRoot}
use store.Memiavl.Tree.{Cache, KvPair, tree_entries, apply_change_set}
use store.Memiavl.Tree.Writes.{apply_entries}
use store.Memiavl.Tree.Cached.{CacheLaws, HasWritten, apply_change_set_lem}
use store.Memiavl.Tree.Fresh.{apply_change_set-HasFreshRoot}
use store.Memiavl.Versions.{next_version}
use store.Memiavl.MultiTree.{
  NamedTree, MultiTree, NamedChangeSet, Error, Outcome, done, failed, panicked, ◌>>=◌, unknown_tree,
  find_index, index_of,
}
use store.Memiavl.MultiTree.Names.{Ends, IsAscending-IsDistinct}
use store.Memiavl.MultiTree.Kept.{All-write_at, All-get_elem?}
use store.Memiavl.MultiTree.Consistent.{IsReady, IsConsistent}
use store.Memiavl.MultiTree.Changes.{change_at, multi_apply_change_set, apply_change_sets}
use store.Memiavl.MultiTree.Changes.Views.{
  change_table, change_tables, total_pairs, length-apply_entries, table_of, HasRoom, index_of-found,
  index_of-write_at, write_at-IsAscending, table_of-write_at,
}

module _ (c : Cache) (laws : CacheLaws c) (sha256 : Bytes → Bytes) where
  open c use {State}

  -- A consistent multi-tree with another table, the same names and the same commit info.
  pub record HasChanged (t : MultiTree State) (table : List (Bytes × List (Bytes × Option Bytes)))
      (t' : MultiTree State) : Type 0 where
    pub consistent : IsConsistent c laws sha256 t'
    pub changed : table_of t'.trees ≡ table
    pub same_names : (name : Bytes) → index_of name t'.trees ≡ index_of name t.trees
    pub same_info : t'.last_commit_info ≡ t.last_commit_info
    pub same_initial : t'.initial_version ≡ t.initial_version

  -- The error names a tree that is not there; the sets before it are applied.
  pub record IsUnknown (t : MultiTree State) (e : Error) (t' : MultiTree State) : Type 0 where
    pub name : Bytes
    pub named : e ≡ unknown_tree name
    pub absent : index_of name t.trees ≡ none
    pub consistent : IsConsistent c laws sha256 t'
    pub same_info : t'.last_commit_info ≡ t.last_commit_info

  -- The change with its room for more pairs.
  record HasChangedAt (t : MultiTree State) (name : Bytes) (pairs : List KvPair) (more : ℕ)
      (t' : MultiTree State) : Type 0 where
    result : HasChanged t (change_table name pairs (table_of t.trees)) t'
    room : HasRoom more t'.trees

  change_at_lem :
      (name : Bytes) (pairs : List KvPair) (more i : ℕ) (t : MultiTree State)
      → IsConsistent c laws sha256 t
      → HasRoom (length pairs + more) t.trees
      → index_of name t.trees ≡ some i
      → Ends (change_at c pairs i t) (HasChangedAt t name pairs more) (IsUnknown t)
  unfolding change_at
  change_at_lem name pairs more i t h room found =
      let (e, at, named) = index_of-found name t.trees i found in
      let version = next_version t.last_commit_info.version t.initial_version in
      let ready = All-get_elem? (IsReady c laws sha256 version) t.trees i e h.ready at in
      let fits =
        All-get_elem? (λ e. length (tree_entries e.tree) + (length pairs + more) < 2 ^ 63) t.trees i
          e room at in
      let (tree, applied, (w, f)) = Returns_inv _ (apply_change_set c pairs e.tree) (
        Returns-IfReturns (HasWritten c laws e.tree (apply_entries pairs (tree_entries e.tree)))
          (λ t'. IsFreshRoot sha256 t'.root) (apply_change_set c pairs e.tree)
          (apply_change_set_lem c laws pairs e.tree ready.sound (omega arith))
          (apply_change_set-HasFreshRoot sha256 c pairs e.tree ready.fresh)) in
      rw (at, applied, change_at)
        (record {
          result = record {
            consistent = record {
              indexed = record {
                ascending = write_at-IsAscending tree t.trees i h.indexed.ascending;
                exact = λ n. h.indexed.exact n ∙ sym (index_of-write_at tree n t.trees i);
              };
              ready =
                  All-write_at (IsReady c laws sha256 version) t.trees i
                    (λ x. record x { tree = tree })
                    (λ x _. record { sound = w.sound; fresh = f; next = rw w.kept ready.next })
                    h.ready;
            };
            changed = rw (← named) (
                table_of-write_at tree pairs t.trees i e
                  (IsAscending-IsDistinct t.trees h.indexed.ascending) at w.written);
            same_names = λ n. index_of-write_at tree n t.trees i;
            same_info = refl;
            same_initial = refl;
          };
          room =
              All-write_at (λ x. length (tree_entries x.tree) + more < 2 ^ 63) t.trees i
                (λ x. record x { tree = tree })
                (λ x _.
                  omega
                    (arith, ap length w.written, length-apply_entries pairs (tree_entries e.tree)))
                (All-imp (λ x p. less x p) t.trees room);
        })
    where
      less :
          (x : NamedTree State)
          → length (tree_entries x.tree) + (length pairs + more) < 2 ^ 63
          → length (tree_entries x.tree) + more < 2 ^ 63
      less x p = omega arith

  one_change :
      (name : Bytes) (pairs : List KvPair) (more : ℕ) (t : MultiTree State)
      → IsConsistent c laws sha256 t
      → HasRoom (length pairs + more) t.trees
      → Ends (multi_apply_change_set c name pairs t) (HasChangedAt t name pairs more) (IsUnknown t)
  unfolding multi_apply_change_set
  one_change name pairs more t h room = elim (Option-cases (index_of name t.trees)) [
    | inl absent ↦
        let e : find_index name t.trees_by_name ≡ none = h.indexed.exact name ∙ absent in
        rw (e, multi_apply_change_set)
          (record { name = name; named = refl; absent = absent; consistent = h; same_info = refl })
    | inr (i, found) ↦
        let e : find_index name t.trees_by_name ≡ some i = h.indexed.exact name ∙ found in
        rw (e, multi_apply_change_set) (change_at_lem name pairs more i t h room found)
  ]

  -- What follows a change counts from the trees before it.
  later :
      (t t' : MultiTree State) (name : Bytes) (pairs : List KvPair)
      (change_sets : List NamedChangeSet)
      → HasChanged t (change_table name pairs (table_of t.trees)) t'
      → (o : Outcome (MultiTree State))
      → Ends o (HasChanged t' (change_tables change_sets (table_of t'.trees))) (IsUnknown t')
      → Ends o
          (HasChanged t (change_tables change_sets (change_table name pairs (table_of t.trees))))
          (IsUnknown t)
  later t t' name pairs change_sets x (done u) y = record {
    consistent = y.consistent;
    changed = y.changed ∙ ap (change_tables change_sets) x.changed;
    same_names = λ n. y.same_names n ∙ x.same_names n;
    same_info = y.same_info ∙ x.same_info;
    same_initial = y.same_initial ∙ x.same_initial;
  }
  later t t' name pairs change_sets x (failed e u) y = record {
    name = y.name;
    named = y.named;
    absent = sym (x.same_names y.name) ∙ y.absent;
    consistent = y.consistent;
    same_info = y.same_info ∙ x.same_info;
  }
  later t t' name pairs change_sets x panicked y = y

  -- With an admissible cache and any hash function, on a consistent multi-tree (names
  -- ascending and indexed, trees sound with kept hashes of their contents, all to commit the
  -- same next version) with room for the pairs (sizes stay below 2 ^ 63), `ApplyChangeSets`
  -- either returns: the multi-tree is consistent, the sorted lists under the names are changed
  -- as the sets say in turn, and names, commit info and initial version are the same; or it
  -- returns the error for a name that no tree has: the multi-tree is consistent and has its
  -- commit info. It does not panic.
  pub apply_change_sets_lem :
      (change_sets : List NamedChangeSet) (t : MultiTree State)
      → IsConsistent c laws sha256 t
      → HasRoom (total_pairs change_sets) t.trees
      → Ends
          (apply_change_sets c change_sets t)
          (HasChanged t (change_tables change_sets (table_of t.trees)))
          (IsUnknown t)
  unfolding apply_change_sets total_pairs change_tables
  apply_change_sets_lem [] t h room = record {
    consistent = h;
    changed = refl;
    same_names = λ n. refl;
    same_info = refl;
    same_initial = refl;
  }
  apply_change_sets_lem (cs ∷ change_sets) t h room =
      go (multi_apply_change_set c cs.name cs.changeset t)
        (one_change cs.name cs.changeset (total_pairs change_sets) t h room)
        (λ t' q r. apply_change_sets_lem change_sets t' q r)
    where
      go :
          (o : Outcome (MultiTree State))
          → Ends o (HasChangedAt t cs.name cs.changeset (total_pairs change_sets)) (IsUnknown t)
          → ((t' : MultiTree State)
              → IsConsistent c laws sha256 t'
              → HasRoom (total_pairs change_sets) t'.trees
              → Ends
                  (apply_change_sets c change_sets t')
                  (HasChanged t' (change_tables change_sets (table_of t'.trees)))
                  (IsUnknown t'))
          → Ends
              (o >>= apply_change_sets c change_sets)
              (HasChanged t
                (change_tables change_sets (change_table cs.name cs.changeset (table_of t.trees))))
              (IsUnknown t)
      go (done t') x k =
          later t t' cs.name cs.changeset change_sets x.result (apply_change_sets c change_sets t')
            (k t' x.result.consistent x.room)
      go (failed e t') x k = x
      go panicked x k = x
