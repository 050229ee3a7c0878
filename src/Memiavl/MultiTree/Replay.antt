-- ===== src/Memiavl/MultiTree/Replay.antt =====
-- `CatchupWAL` of memiavl/multitree.go: the entries of the write-ahead log that a multi-tree lacks. The
-- log is a parameter: whether `LastIndex` fails, its result else, and the entry at an index, decoded, if
-- it can be read.
pub mod Entries
pub mod Rounds
pub mod Laws
use store.Prelude.{
  ℕ, zero, suc, ◌+◌, ◌-◌, Bool, true, false, Option, none, some, List, [], ◌∷◌, ltb, ◌==◌, min,
  if◌then◌else◌,
}
use store.Bytes.{Bytes}
use store.Memiavl.Tree.{Cache}
use store.Memiavl.Versions.{next_version, wal_index}
use store.Memiavl.MultiTree.{
  NamedChangeSet, TreeNameUpgrade, MultiTree, Outcome, done, failed, panicked, ◌>>=◌, target_pruned,
  no_last_index, read_failed, apply_upgrades,
}
use store.Memiavl.MultiTree.Changes.{apply_change_sets, multi_save_version, update_commit_info}

pub record WalEntry : Type 0 where
  pub upgrades : List TreeNameUpgrade
  pub changesets : List NamedChangeSet

pub record Wal : Type 0 where
  pub index_fails : Bool
  pub last_index : ℕ
  pub read : ℕ → Option WalEntry

-- The index to stop at.
unfoldable pub end_index : Wal → ℕ → ℕ → ℕ
end_index wal end_version initial_version =
    if end_version == 0 then wal.last_index else wal_index end_version initial_version

module _ (c : Cache) (new_cache : ℕ → Option c.State) (sha256 : Bytes → Bytes) where
  open c use {State}

  unfoldable pub apply_wal_entry : WalEntry → MultiTree State → Outcome (MultiTree State)
  apply_wal_entry entry t =
      apply_upgrades new_cache entry.upgrades t >>= apply_change_sets c entry.changesets

  -- One round: the entry is applied and committed.
  unfoldable pub replay_entry : Option WalEntry → ℕ → MultiTree State → Outcome (MultiTree State)
  unfolding apply_wal_entry
  replay_entry none i t = failed (read_failed i) t
  replay_entry (some entry) i t = apply_wal_entry entry t >>= multi_save_version sha256 false

  -- The loop, with the count of the indexes that are left.
  unfoldable pub replay_loop : Wal → ℕ → ℕ → MultiTree State → Outcome (MultiTree State)
  unfolding replay_entry
  replay_loop wal zero i t = done t
  replay_loop wal (suc n) i t = replay_entry (wal.read i) i t >>= replay_loop wal n (i + 1)

  -- `CatchupWAL` with the last index at hand.
  unfoldable pub catchup_from : Wal → ℕ → MultiTree State → Outcome (MultiTree State)
  unfolding replay_loop end_index
  catchup_from wal end_version t =
      let first =
        wal_index (next_version t.last_commit_info.version t.initial_version) t.initial_version in
      let last = end_index wal end_version t.initial_version in
      let stop = if ltb wal.last_index last then wal.last_index else last in
      if ltb wal.last_index first
      then done t
      else if ltb last first
      then failed (target_pruned last) t
      else replay_loop wal (stop + 1 - first) first t >>= update_commit_info sha256

  unfoldable pub catchup_wal : Wal → ℕ → MultiTree State → Outcome (MultiTree State)
  unfolding catchup_from
  catchup_wal wal end_version t =
      if wal.index_fails then failed no_last_index t else catchup_from wal end_version t
