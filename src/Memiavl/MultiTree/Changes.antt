-- ===== src/Memiavl/MultiTree/Changes.antt =====
-- memiavl/multitree.go: change sets, commits and the commit info of a multi-tree.
pub mod Views
pub mod Applied
pub mod Saved
use store.Prelude.{
  ℕ, ◌+◌, Bool, true, false, Option, none, some, List, [], ◌∷◌, ltb, if◌then◌else◌, get_elem?,
}
use store.Bytes.{Bytes}
use store.Memiavl.Tree.{Cache, KvPair, Tree, max_int64, apply_change_set, root_hash, save_version}
use store.Memiavl.Versions.{next_version}
use store.Memiavl.MultiTree.{
  NamedTree, StoreInfo, CommitInfo, NamedChangeSet, MultiTree, Outcome, done, failed, panicked,
  ◌>>=◌, map_outcome, unknown_tree, version_overflow, find_index, write_at,
}

module _ (c : Cache) where
  open c use {State}

  -- The tree with the change set applied, written back at its index.
  unfoldable pub change_at : List KvPair → ℕ → MultiTree State → Outcome (MultiTree State)
  unfolding write_at
  change_at pairs i t = elim (get_elem? t.trees i) [
    | none ↦ panicked
    | some entry ↦ elim (apply_change_set c pairs entry.tree) [
      | none ↦ panicked
      | some tree ↦ done (record t { trees = write_at t.trees i (λ e. record e { tree = tree }) })
    ]
  ]

  -- `ApplyChangeSet`
  unfoldable pub multi_apply_change_set :
      Bytes → List KvPair → MultiTree State → Outcome (MultiTree State)
  unfolding change_at find_index
  multi_apply_change_set name pairs t = elim (find_index name t.trees_by_name) [
    | none ↦ failed (unknown_tree name) t
    | some i ↦ change_at pairs i t
  ]

  unfoldable pub apply_change_sets :
      List NamedChangeSet → MultiTree State → Outcome (MultiTree State)
  unfolding multi_apply_change_set
  apply_change_sets [] t = done t
  apply_change_sets (cs ∷ change_sets) t =
      multi_apply_change_set cs.name cs.changeset t >>= apply_change_sets change_sets

module _ {S : Type 0} (sha256 : Bytes → Bytes) where
  -- The loop of `SaveVersion` over the trees.
  unfoldable pub save_trees : Bool → List (NamedTree S) → Outcome (List (NamedTree S))
  save_trees update [] = done []
  save_trees update (entry ∷ trees) =
      let rest = save_trees update trees in
      elim (save_version sha256 update entry.tree) [
        | none ↦ failed version_overflow (entry ∷ trees)
        | some (hash, version, tree) ↦ map_outcome (◌∷◌ (record entry { tree = tree })) rest
      ]

  -- The tree that keeps its hashes, and its commit info; `Version` panics beyond an int64.
  unfoldable pub store_info : NamedTree S → Option (StoreInfo × NamedTree S)
  store_info entry =
      let (bz, root) = root_hash sha256 entry.tree.root in
      if ltb max_int64 entry.tree.version
      then none
      else some (
        record { name = entry.name; version = entry.tree.version; hash = bz },
        record entry { tree = record entry.tree { root = root } },
      )

  -- The loop of `buildCommitInfo`.
  unfoldable pub store_infos_of : List (NamedTree S) → Option (List StoreInfo × List (NamedTree S))
  unfolding store_info
  store_infos_of [] = some ([], [])
  store_infos_of (entry ∷ trees) =
      let rest = store_infos_of trees in
      elim (store_info entry) [
        | none ↦ none
        | some (info, entry') ↦ elim rest [
          | none ↦ none
          | some (infos, trees') ↦ some (info ∷ infos, entry' ∷ trees')
        ]
      ]

  unfoldable pub build_commit_info : ℕ → MultiTree S → Option (CommitInfo × MultiTree S)
  unfolding store_infos_of
  build_commit_info version t = elim (store_infos_of t.trees) [
    | none ↦ none
    | some (infos, trees) ↦
        some (record { version = version; store_infos = infos }, record t { trees = trees })
  ]

  unfoldable pub working_commit_info : MultiTree S → Option (CommitInfo × MultiTree S)
  unfolding build_commit_info
  working_commit_info t =
      build_commit_info (next_version t.last_commit_info.version t.initial_version) t

  unfoldable pub update_commit_info : MultiTree S → Outcome (MultiTree S)
  unfolding build_commit_info
  update_commit_info t = elim (build_commit_info t.last_commit_info.version t) [
    | none ↦ panicked
    | some (info, t') ↦ done (record t' { last_commit_info = info })
  ]

  -- The end of `SaveVersion`.
  unfoldable pub finish_save : Bool → MultiTree S → Outcome (MultiTree S)
  unfolding update_commit_info
  finish_save true t = update_commit_info t
  finish_save false t =
      done (record t { last_commit_info = record t.last_commit_info { store_infos = [] } })

  -- `SaveVersion`; the version that it returns is the one of the new commit info.
  unfoldable pub multi_save_version : Bool → MultiTree S → Outcome (MultiTree S)
  unfolding save_trees finish_save
  multi_save_version update t =
      let version = next_version t.last_commit_info.version t.initial_version in
      let t' : MultiTree S = record t {
        last_commit_info = record t.last_commit_info { version = version };
      } in
      map_outcome (λ trees. record t' { trees = trees }) (save_trees update t.trees)
      >>= finish_save update
