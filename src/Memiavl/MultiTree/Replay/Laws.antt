-- ===== src/Memiavl/MultiTree/Replay/Laws.antt =====
-- `CatchupWAL` keeps a multi-tree consistent and commits one version for each entry of the log.
use store.Prelude.{ℕ, ◌+◌, ◌-◌, ◌<◌, ◌≤◌, true, false, Option, ◌≡◌}
use store.Bytes.{Bytes}
use store.Memiavl.Tree.{Cache}
use store.Memiavl.Tree.Cached.{CacheLaws}
use store.Memiavl.Versions.{next_version, wal_index}
use store.Memiavl.MultiTree.{MultiTree, Error, target_pruned, no_last_index}
use store.Memiavl.MultiTree.Consistent.{NewCacheLaws, IsConsistent}
use store.Memiavl.MultiTree.Same.{infos_at}
use store.Memiavl.MultiTree.Replay.{Wal, end_index}
use store.Memiavl.MultiTree.Replay.Entries.{IsStopped}
use store.Memiavl.MultiTree.Replay.Rounds.{stop_index, HasEntries}

module _ (c : Cache) (laws : CacheLaws c) (sha256 : Bytes → Bytes) (new_cache : ℕ → Option c.State)
    (empty : NewCacheLaws c new_cache) where
  open c use {State}

  abbrev pub first_index : MultiTree State → ℕ
  first_index t =
      wal_index (next_version t.last_commit_info.version t.initial_version) t.initial_version

  -- What `CatchupWAL` makes of a multi-tree.
  pub record HasCaughtUp (wal : Wal) (end_version : ℕ) (t t' : MultiTree State) : Type 0 where
    pub consistent : IsConsistent c laws sha256 t'
    pub same_initial : t'.initial_version ≡ t.initial_version
    pub unchanged : wal.last_index < first_index t → t' ≡ t
    pub reached :
        first_index t ≤ wal.last_index
        → wal_index t'.last_commit_info.version t'.initial_version ≡ stop_index wal end_version t
    pub current :
        first_index t ≤ wal.last_index
        → t'.last_commit_info.store_infos ≡ infos_at sha256 t'.last_commit_info.version t'.trees
    pub replayed :
        first_index t ≤ wal.last_index
        → HasEntries c laws sha256 new_cache empty wal
            (stop_index wal end_version t + 1 - first_index t)
            (first_index t)
            t
            t'

  -- The multi-tree after an error.
  pub record HasGivenUp (wal : Wal) (end_version : ℕ) (t : MultiTree State) (e : Error)
      (t' : MultiTree State) : Type 0 where
    pub stopped : IsStopped c laws sha256 new_cache empty e t'
    pub no_index : wal.index_fails ≡ true → (e ≡ no_last_index) × (t' ≡ t)
    pub pruned :
        wal.index_fails ≡ false
        → end_index wal end_version t.initial_version < first_index t
        → (e ≡ target_pruned (end_index wal end_version t.initial_version)) × (t' ≡ t)
