-- ===== src/Memiavl/MultiTree/Replay/Rounds.antt =====
-- The entries of the log that `CatchupWAL` replays: each is applied and committed.
use store.Prelude.{
  ℕ, zero, suc, ◌+◌, ◌^◌, ◌<◌, ◌≤◌, max, Option, some, ◌≡◌, ◌⊎◌, refl, ◌∙◌, arith, ltb,
  if◌then◌else◌,
}
use store.Bytes.{Bytes}
use store.Memiavl.Tree.{Cache, max_int64}
use store.Memiavl.Tree.Cached.{CacheLaws}
use store.Memiavl.Versions.{next_version, wal_index}
use store.Memiavl.MultiTree.{MultiTree}
use store.Memiavl.MultiTree.Names.{Ends, Ends-imp, Ends-bind}
use store.Memiavl.MultiTree.Consistent.{NewCacheLaws}
use store.Memiavl.MultiTree.Changes.Views.{table_of, HasRoom}
use store.Memiavl.MultiTree.Replay.Entries.{
  entry_pairs, IsStopped, Good, HasEntry, HasReplayed, replay_entry_lem,
}
use store.Memiavl.MultiTree.Replay.{WalEntry, Wal, replay_entry, replay_loop, end_index}

unfoldable pub replay_pairs : Wal → ℕ → ℕ → ℕ
replay_pairs wal zero i = 0
replay_pairs wal (suc n) i = entry_pairs (wal.read i) + replay_pairs wal n (i + 1)

-- A version can be followed by `n` more.
abbrev pub HasVersions : ℕ → ℕ → ℕ → Type 0
HasVersions n v initial = (max v initial + n < max_int64) × ((v ≡ 0) ⊎ (initial ≤ v))

HasVersions-next_version :
    (n v initial : ℕ)
    → HasVersions (suc n) v initial
    → HasVersions n (next_version v initial) initial
unfolding next_version
HasVersions-next_version n v initial h = ground arith

next_version-above : (v initial : ℕ) → v < max_int64 → v < next_version v initial
unfolding next_version
next_version-above v initial h = ground arith

following_index :
    (n i v initial : ℕ)
    → HasVersions (suc n) v initial
    → wal_index (next_version v initial) initial ≡ i
    → wal_index (next_version (next_version v initial) initial) initial ≡ i + 1
unfolding next_version wal_index
following_index n i v initial h e = ground arith

pub reached_index :
    (v initial stop : ℕ)
    → HasVersions 0 v initial
    → 0 < v
    → wal_index (next_version v initial) initial ≡ stop + 1
    → wal_index v initial ≡ stop
unfolding wal_index next_version
reached_index v initial stop h p e = ground arith

-- The last index to replay, for a wanted version.
unfoldable pub stop_index : {S : Type 0} → Wal → ℕ → MultiTree S → ℕ
unfolding end_index
stop_index wal end_version t =
    let last = end_index wal end_version t.initial_version in
    if ltb wal.last_index last then wal.last_index else last

module _ (c : Cache) (laws : CacheLaws c) (sha256 : Bytes → Bytes) (new_cache : ℕ → Option c.State)
    (empty : NewCacheLaws c new_cache) where
  open c use {State}

  -- The `n` entries from index `i` on can be read; each is applied to a consistent multi-tree and
  -- committed as the next version, from `t` on, and the last one leaves the trees of `t'`.
  unfoldable pub HasEntries : Wal → ℕ → ℕ → MultiTree State → MultiTree State → Type 0
  HasEntries wal zero i t t' = table_of t'.trees ≡ table_of t.trees
  HasEntries wal (suc n) i t t' =
      (entry : WalEntry) × (t1 : MultiTree State) × (wal.read i ≡ some entry)
      × HasEntry c laws sha256 new_cache empty entry t t1
      × (t1.last_commit_info.version ≡ next_version t.last_commit_info.version t.initial_version)
      × (t1.initial_version ≡ t.initial_version)
      × Good c laws sha256 new_cache empty t1
      × HasEntries wal n (i + 1) t1 t'

  pub HasEntries-same_table :
      (wal : Wal) (n i : ℕ) (t t1 t2 : MultiTree State)
      → table_of t2.trees ≡ table_of t1.trees
      → HasEntries wal n i t t1
      → HasEntries wal n i t t2
  unfolding HasEntries
  HasEntries-same_table wal zero i t t1 t2 e h = e ∙ h
  HasEntries-same_table wal (suc n) i t t1 t2 e (entry, u, r, p, v, s, g, h) =
      (entry, u, r, p, v, s, g, HasEntries-same_table wal n (i + 1) u t1 t2 e h)

  -- What `n` rounds make of a multi-tree: it is to commit the version of index `stop` next.
  pub record HasCaught (wal : Wal) (n i stop : ℕ) (t t' : MultiTree State) : Type 0 where
    pub entries : HasEntries wal n i t t'
    pub consistent : Good c laws sha256 new_cache empty t'
    pub same_initial : t'.initial_version ≡ t.initial_version
    pub next_index :
        wal_index (next_version t'.last_commit_info.version t'.initial_version) t'.initial_version
        ≡ stop
    pub in_range : HasVersions 0 t'.last_commit_info.version t'.initial_version
    pub advanced : t.last_commit_info.version + n ≤ t'.last_commit_info.version

  later :
      (wal : Wal) (n i more : ℕ) (t t1 t2 : MultiTree State)
      → t.last_commit_info.version < max_int64
      → HasReplayed c laws sha256 new_cache empty (wal.read i) more t t1
      → HasCaught wal n (i + 1) (i + 1 + n) t1 t2
      → HasCaught wal (suc n) i (i + suc n) t t2
  unfolding HasEntries
  later wal n i more t t1 t2 v q r = record {
    entries =
        (q.entry, t1, q.readable, q.has_entry, q.bumped, q.same_initial, q.consistent, r.entries);
    consistent = r.consistent;
    same_initial = r.same_initial ∙ q.same_initial;
    next_index = omega (arith, r.next_index);
    in_range = r.in_range;
    advanced = omega (
      arith,
      r.advanced,
      q.bumped,
      next_version-above t.last_commit_info.version t.initial_version v,
    );
  }

  following :
      (o : Option WalEntry) (n i more : ℕ) (t t1 : MultiTree State)
      → HasVersions (suc n) t.last_commit_info.version t.initial_version
      → wal_index (next_version t.last_commit_info.version t.initial_version) t.initial_version ≡ i
      → HasReplayed c laws sha256 new_cache empty o more t t1
      → wal_index (next_version t1.last_commit_info.version t1.initial_version) t1.initial_version
        ≡ i + 1
  following o n i more t t1 v e q =
      rw (q.bumped, q.same_initial)
        (following_index n i t.last_commit_info.version t.initial_version v e)

  pub replay_loop_lem :
      (wal : Wal) (n i : ℕ) (t : MultiTree State)
      → Good c laws sha256 new_cache empty t
      → HasVersions n t.last_commit_info.version t.initial_version
      → wal_index (next_version t.last_commit_info.version t.initial_version) t.initial_version ≡ i
      → replay_pairs wal n i < 2 ^ 63
      → HasRoom (replay_pairs wal n i) t.trees
      → Ends
          (replay_loop c new_cache sha256 wal n i t)
          (HasCaught wal n i (i + n) t)
          (IsStopped c laws sha256 new_cache empty)
  unfolding replay_loop replay_pairs HasEntries
  replay_loop_lem wal zero i t h v e p room = record {
    entries = refl;
    consistent = h;
    same_initial = refl;
    next_index = omega (arith, e);
    in_range = v;
    advanced = omega arith;
  }
  replay_loop_lem wal (suc n) i t h v e p room =
      Ends-bind (replay_entry c new_cache sha256 (wal.read i) i t)
        (replay_loop c new_cache sha256 wal n (i + 1))
        (HasReplayed c laws sha256 new_cache empty (wal.read i) (replay_pairs wal n (i + 1)) t)
        (HasCaught wal (suc n) i (i + suc n) t) (IsStopped c laws sha256 new_cache empty)
        (IsStopped c laws sha256 new_cache empty)
        (replay_entry_lem c laws sha256 new_cache empty (wal.read i) i (replay_pairs wal n (i + 1))
          t h (omega (arith, v.0)) (omega (arith, v.0)) p room)
        (λ t1 q.
          Ends-imp (replay_loop c new_cache sha256 wal n (i + 1) t1)
            (HasCaught wal n (i + 1) (i + 1 + n) t1) (HasCaught wal (suc n) i (i + suc n) t)
            (IsStopped c laws sha256 new_cache empty) (IsStopped c laws sha256 new_cache empty)
            (λ t2 r. later wal n i (replay_pairs wal n (i + 1)) t t1 t2 (omega (arith, v.0)) q r)
            (λ _ _ r. r)
            (replay_loop_lem wal n (i + 1) t1 q.consistent
              (rw (q.bumped, q.same_initial)
                (HasVersions-next_version n t.last_commit_info.version t.initial_version v))
              (following (wal.read i) n i (replay_pairs wal n (i + 1)) t t1 v e q) (omega arith)
              q.room))
        (λ _ _ r. r)
