-- ===== src/Memiavl/MultiTree/Replay/Entries.antt =====
-- One entry of the log: its upgrades and change sets are applied, and the multi-tree is committed.
use store.Prelude.{
  ℕ, ◌+◌, ◌^◌, ◌<◌, ◌≤◌, false, Option, none, some, List, [], ◌∷◌, ◌≡◌, refl, ap, ap₂, ◌∙◌, arith,
  All, All-imp, Bool-cases, inl, inr, length, leb,
}
use store.Bytes.{Bytes}
use store.Memiavl.Node.Hash.Writes.{IsFreshRoot}
use store.Memiavl.Tree.{
  Cache, tree_entries, root_entries, max_int64, new_with_initial_version, new_empty_tree,
}
use store.Memiavl.Tree.Cached.{CacheLaws, IsSound}
use store.Memiavl.Versions.{next_version}
use store.Memiavl.MultiTree.{NamedTree, MultiTree, Error, done, rename, apply_upgrades, read_failed}
use store.Memiavl.MultiTree.Names.{Ends, Ends-×, Ends-imp, Ends-done, Ends-bind}
use store.Memiavl.MultiTree.Kept.{apply_upgrades-All}
use store.Memiavl.MultiTree.Consistent.{
  NewCacheLaws, IsReady, IsConsistent, HasUpgraded, IsLeft, apply_upgrades-IsConsistent,
}
use store.Memiavl.MultiTree.Changes.{apply_change_sets, multi_save_version}
use store.Memiavl.MultiTree.Changes.Views.{
  total_pairs, table_of, HasRoom, change_tables, change_tables-HasRoom, table_of-HasRoom,
}
use store.Memiavl.MultiTree.Changes.Applied.{HasChanged, IsUnknown, apply_change_sets_lem}
use store.Memiavl.MultiTree.Changes.Saved.{HasCommitted, multi_save_version_lem}
use store.Memiavl.MultiTree.Replay.{WalEntry, apply_wal_entry, replay_entry}

-- The pairs of `n` entries from index `i` on, an entry that cannot be read having none.
abbrev pub entry_pairs : Option WalEntry → ℕ
entry_pairs none = 0
entry_pairs (some entry) = total_pairs entry.changesets

module _ (c : Cache) (laws : CacheLaws c) (sha256 : Bytes → Bytes) (new_cache : ℕ → Option c.State)
    (empty : NewCacheLaws c new_cache) where
  open c use {State}

  abbrev pub Good : MultiTree State → Type 0
  Good = IsConsistent c laws sha256

  -- After an error every tree is still sound.
  abbrev pub IsStopped : Error → MultiTree State → Type 0
  IsStopped e t = All (λ x. IsSound c laws x.tree × IsFreshRoot sha256 x.tree.root) t.trees

  pub IsReady-IsStopped :
      (v : ℕ) (e : Error) (t : MultiTree State)
      → All (IsReady c laws sha256 v) t.trees
      → IsStopped e t
  IsReady-IsStopped v e t h =
      All-imp (λ (x : NamedTree State) (r : IsReady c laws sha256 v x). both x r) t.trees h
    where
      both :
          (x : NamedTree State)
          → IsReady c laws sha256 v x
          → IsSound c laws x.tree × IsFreshRoot sha256 x.tree.root
      both x r = (r.sound, r.fresh)

  new_tree-room :
      (n version size : ℕ)
      → n < 2 ^ 63
      → length (tree_entries (new_with_initial_version version (new_cache size))) + n < 2 ^ 63
  unfolding new_with_initial_version new_empty_tree tree_entries root_entries
  new_tree-room n version size h = elim (Bool-cases (leb version 1)) [
    | inl e ↦ rw e (omega arith)
    | inr e ↦ rw e (omega arith)
  ]

  -- The multi-tree after the upgrades, with the room that it had.
  abbrev HasRoomed : (n : ℕ) → MultiTree State → MultiTree State → Type 0
  HasRoomed n t t' = HasUpgraded c laws sha256 new_cache empty t t' × HasRoom n t'.trees

  -- `t'` is what the upgrades of the entry make of `t`.
  abbrev IsUpgraded : WalEntry → (n : ℕ) → MultiTree State → MultiTree State → Type 0
  IsUpgraded entry n t t' = (apply_upgrades new_cache entry.upgrades t ≡ done t') × HasRoomed n t t'

  upgraded :
      (entry : WalEntry) (n : ℕ) (t : MultiTree State)
      → Good t
      → t.last_commit_info.version < 2 ^ 63
      → n < 2 ^ 63
      → HasRoom n t.trees
      → Ends (apply_upgrades new_cache entry.upgrades t) (IsUpgraded entry n t) IsStopped
  upgraded entry n t h v p room =
      Ends-done (apply_upgrades new_cache entry.upgrades t) (HasRoomed n t) IsStopped (
        Ends-imp (apply_upgrades new_cache entry.upgrades t) (HasRoomed n t) (HasRoomed n t)
          (λ e t'. IsLeft c laws sha256 new_cache empty t e t' × HasRoom n t'.trees) IsStopped
          (λ t' q. q)
          (λ e t' q.
            IsReady-IsStopped (next_version t.last_commit_info.version t.initial_version) e t'
              q.0.ready)
          (Ends-× (apply_upgrades new_cache entry.upgrades t)
            (HasUpgraded c laws sha256 new_cache empty t) (λ t'. HasRoom n t'.trees)
            (IsLeft c laws sha256 new_cache empty t) (λ e t'. HasRoom n t'.trees)
            (apply_upgrades-IsConsistent c laws sha256 new_cache empty entry.upgrades t h v)
            (apply_upgrades-All (λ x. length (tree_entries x.tree) + n < 2 ^ 63) new_cache
              (λ name x q. unfold rename in q) (λ version size name. new_tree-room n version size p)
              entry.upgrades t room)))

  -- The trees of `t'` are those of `t` after the upgrades and then the change sets of the entry.
  pub record HasEntry (entry : WalEntry) (t t' : MultiTree State) : Type 0 where
    pub upgraded : MultiTree State
    pub upgrades : apply_upgrades new_cache entry.upgrades t ≡ done upgraded
    pub tables : table_of t'.trees ≡ change_tables entry.changesets (table_of upgraded.trees)

  -- One entry that is applied and committed, with room for `more` pairs.
  pub record HasReplayed (o : Option WalEntry) (more : ℕ) (t t' : MultiTree State) : Type 0 where
    pub entry : WalEntry
    pub readable : o ≡ some entry
    pub has_entry : HasEntry entry t t'
    pub consistent : Good t'
    pub bumped :
        t'.last_commit_info.version ≡ next_version t.last_commit_info.version t.initial_version
    pub same_initial : t'.initial_version ≡ t.initial_version
    pub room : HasRoom more t'.trees

  -- The entry before its commit.
  record HasApplied (entry : WalEntry) (more : ℕ) (t t' : MultiTree State) : Type 0 where
    has_entry : HasEntry entry t t'
    consistent : Good t'
    same_version : t'.last_commit_info.version ≡ t.last_commit_info.version
    same_initial : t'.initial_version ≡ t.initial_version
    room : HasRoom more t'.trees

  less_room : (a b : ℕ) (trees : List (NamedTree State)) → HasRoom (a + b) trees → HasRoom a trees
  less_room a b [] h = tt
  less_room a b (x ∷ trees) h = (omega (arith, h.0), less_room a b trees h.1)

  applied :
      (entry : WalEntry) (more : ℕ) (t t1 t2 : MultiTree State)
      → IsUpgraded entry (total_pairs entry.changesets + more) t t1
      → HasChanged c laws sha256 t1 (change_tables entry.changesets (table_of t1.trees)) t2
      → HasApplied entry more t t2
  applied entry more t t1 t2 (e, q) r = record {
    has_entry = record { upgraded = t1; upgrades = e; tables = r.changed };
    consistent = r.consistent;
    same_version = ap (λ i. i.version) (r.same_info ∙ q.0.same_info);
    same_initial = r.same_initial ∙ q.0.same_initial;
    room = change_tables-HasRoom entry.changesets more t1.trees t2.trees r.changed q.1;
  }

  finished :
      (entry : WalEntry) (more : ℕ) (t t1 t2 : MultiTree State)
      → HasApplied entry more t t1
      → HasCommitted c laws sha256 false t1 t2
      → HasReplayed (some entry) more t t2
  finished entry more t t1 t2 q r = record {
    entry = entry;
    readable = refl;
    has_entry = record {
      upgraded = q.has_entry.upgraded;
      upgrades = q.has_entry.upgrades;
      tables = r.same_table ∙ q.has_entry.tables;
    };
    consistent = r.consistent;
    bumped = r.bumped ∙ ap₂ next_version q.same_version q.same_initial;
    same_initial = r.same_initial ∙ q.same_initial;
    room = table_of-HasRoom more t1.trees t2.trees r.same_table q.room;
  }

  wal_entry_lem :
      (entry : WalEntry) (more : ℕ) (t : MultiTree State)
      → Good t
      → t.last_commit_info.version < max_int64
      → total_pairs entry.changesets + more < 2 ^ 63
      → HasRoom (total_pairs entry.changesets + more) t.trees
      → Ends (apply_wal_entry c new_cache sha256 entry t) (HasApplied entry more t) IsStopped
  unfolding apply_wal_entry
  wal_entry_lem entry more t h v p room =
      let pairs = total_pairs entry.changesets in
      Ends-bind (apply_upgrades new_cache entry.upgrades t) (apply_change_sets c entry.changesets)
        (IsUpgraded entry (pairs + more) t) (HasApplied entry more t) IsStopped IsStopped
        (upgraded entry (pairs + more) t h (omega arith) p room)
        (λ t1 q.
          Ends-imp (apply_change_sets c entry.changesets t1)
            (HasChanged c laws sha256 t1 (change_tables entry.changesets (table_of t1.trees)))
            (HasApplied entry more t) (IsUnknown c laws sha256 t1) IsStopped
            (λ t2 r. applied entry more t t1 t2 q r)
            (λ e t2 r.
              IsReady-IsStopped (next_version t2.last_commit_info.version t2.initial_version) e t2
                r.consistent.ready)
            (apply_change_sets_lem c laws sha256 entry.changesets t1 q.1.0.consistent
              (less_room pairs more t1.trees q.1.1)))
        (λ e t' q. q)

  pub replay_entry_lem :
      (o : Option WalEntry) (i more : ℕ) (t : MultiTree State)
      → Good t
      → t.last_commit_info.version < max_int64
      → t.initial_version ≤ max_int64
      → entry_pairs o + more < 2 ^ 63
      → HasRoom (entry_pairs o + more) t.trees
      → Ends (replay_entry c new_cache sha256 o i t) (HasReplayed o more t) IsStopped
  unfolding replay_entry
  replay_entry_lem none i more t h v m p room =
      IsReady-IsStopped (next_version t.last_commit_info.version t.initial_version) (read_failed i)
        t h.ready
  replay_entry_lem (some entry) i more t h v m p room =
      Ends-bind (apply_wal_entry c new_cache sha256 entry t) (multi_save_version sha256 false)
        (HasApplied entry more t) (HasReplayed (some entry) more t) IsStopped IsStopped
        (wal_entry_lem entry more t h v p room)
        (λ t1 q.
          Ends-imp (multi_save_version sha256 false t1) (HasCommitted c laws sha256 false t1)
            (HasReplayed (some entry) more t) (λ e _. ⊥) IsStopped
            (λ t2 r. finished entry more t t1 t2 q r) (λ e t2 r. absurd r)
            (multi_save_version_lem c laws sha256 false t1 q.consistent
              (omega (arith, q.same_version)) (omega (arith, q.same_initial))))
        (λ e t' q. q)
