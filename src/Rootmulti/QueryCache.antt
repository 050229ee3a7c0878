-- ===== src/Rootmulti/QueryCache.antt =====
-- memiavl/rootmulti/query_cache.go: the cache of historical versions. A `MultiTree` is a value of a
-- parameter type with its `Copy`; the trees that were closed are listed. Each function runs under the
-- cache's mutex, so it is one step. The results of `Close` are only logged.
pub mod Order
pub mod Versions
pub mod Pruning
pub mod Consistent
pub mod Steps
use store.Prelude.{
  ℕ, zero, suc, ◌+◌, ◌≤◌, Bool, true, false, Option, none, some, List, [], ◌∷◌, ◌++◌, ltb, leb,
  ◌==◌, ◌||◌, ◌&&◌, length, take, drop, if◌then◌else◌, ◌>>=◌,
}
use store.Prelude.Int.{ℤ, pos, negsuc}
use store.Search.{sort_search}

-- `DefaultSnapshotInterval` of memiavl/db.go
abbrev pub default_snapshot_interval : ℕ
default_snapshot_interval = 1000

-- The two options that bound the cache: an int, and a uint32.
pub record CacheOptions : Type 0 where
  pub historical_query_limit : ℤ
  pub snapshot_interval : ℕ

unfoldable pub snapshot_interval_limit : CacheOptions → ℕ
snapshot_interval_limit opts =
    if opts.snapshot_interval == 0 then default_snapshot_interval else opts.snapshot_interval

-- A limit that is not positive, or above the interval, is the interval.
unfoldable pub capped : ℤ → ℕ → ℕ
capped (negsuc n) max_interval = max_interval
capped (pos n) max_interval = if n == 0 || ltb max_interval n then max_interval else n

unfoldable pub cache_limit : CacheOptions → ℕ
unfolding snapshot_interval_limit capped
cache_limit opts = capped opts.historical_query_limit (snapshot_interval_limit opts) + 1

-- `c.seq[i]`, for the test of `sort.Search`, which stays in range.
unfoldable pub seq_at : List ℕ → ℕ → ℕ
seq_at [] i = 0
seq_at (v ∷ seq) zero = v
seq_at (v ∷ seq) (suc i) = seq_at seq i

unfoldable pub last_of : List ℕ → ℕ
last_of [] = 0
last_of (v ∷ []) = v
last_of (v ∷ w ∷ seq) = last_of (w ∷ seq)

unfoldable pub insert_at : ℕ → ℕ → List ℕ → List ℕ
insert_at idx version seq = take idx seq ++ (version ∷ drop idx seq)

-- The part of `insertVersion` after its switch.
unfoldable pub insert_searched : ℕ → List ℕ → List ℕ
unfolding insert_at sort_search
insert_searched version seq =
    let idx = sort_search (length seq) (λ i. leb version (seq_at seq i)) in
    if ltb idx (length seq) && (seq_at seq idx == version) then seq else insert_at idx version seq

unfoldable pub insert_version : ℕ → List ℕ → List ℕ
unfolding insert_searched last_of
insert_version version [] = version ∷ []
insert_version version (v ∷ seq) =
    if ltb (last_of (v ∷ seq)) version
    then (v ∷ seq) ++ (version ∷ [])
    else if version == last_of (v ∷ seq)
    then v ∷ seq
    else insert_searched version (v ∷ seq)

module _ {M : Type 0} where
  unfoldable pub find_entry : ℕ → List (ℕ × M) → Option M
  find_entry version [] = none
  find_entry version ((v, tree) ∷ entries) =
      if v == version then some tree else find_entry version entries

  unfoldable pub delete_entry : ℕ → List (ℕ × M) → List (ℕ × M)
  delete_entry version [] = []
  delete_entry version ((v, tree) ∷ entries) =
      let rest = delete_entry version entries in if v == version then rest else (v, tree) ∷ rest

pub record SnapshotExporter (M : Type 0) : Type 0 where
  pub version : ℕ
  pub mtree : M

pub record QueryCache (M : Type 0) : Type 0 where
  pub entries : List (ℕ × M)
  pub seq : List ℕ
  pub latest : ℕ
  pub exporter : Option (SnapshotExporter M)
  pub closed : List M

unfoldable pub new_query_cache : {M : Type 0} → QueryCache M
new_query_cache = record { entries = []; seq = []; latest = 0; exporter = none; closed = [] }

module _ {M : Type 0} where
  -- The loop of `pruneHistoricalTrees`; a version without its tree would be a nil dereference.
  unfoldable pub prune_loop :
      ℕ → List ℕ → List (ℕ × M) → List M → Option (List ℕ × List (ℕ × M) × List M)
  unfolding find_entry delete_entry
  prune_loop limit [] entries closed = some ([], entries, closed)
  prune_loop limit (v ∷ seq) entries closed =
      if ltb limit (length (v ∷ seq))
      then find_entry v entries
        >>= (λ tree. prune_loop limit seq (delete_entry v entries) (closed ++ (tree ∷ [])))
      else some (v ∷ seq, entries, closed)

  unfoldable pub prune_historical_trees : CacheOptions → QueryCache M → Option (QueryCache M)
  unfolding prune_loop cache_limit
  prune_historical_trees opts c =
      if cache_limit opts == 0
      then some c
      else prune_loop (cache_limit opts) c.seq c.entries c.closed >>= λ r.
          some (record c { seq = r.0; entries = r.1; closed = r.2 })

  unfoldable pub close_exporter : Option (SnapshotExporter M) → List M → List M
  close_exporter none closed = closed
  close_exporter (some e) closed = closed ++ (e.mtree ∷ [])

  unfoldable pub all_trees : List (ℕ × M) → List M
  all_trees [] = []
  all_trees ((v, tree) ∷ entries) = tree ∷ all_trees entries

  unfoldable pub reset : QueryCache M → QueryCache M
  unfolding close_exporter all_trees
  reset c = record {
    entries = [];
    seq = [];
    latest = 0;
    exporter = none;
    closed = close_exporter c.exporter (c.closed ++ all_trees c.entries);
  }

  -- The error, on a version that is not positive or an exporter that is there, is `none`. A nil
  -- multi-tree is not modelled.
  unfoldable pub set_snapshot_exporter : ℤ → M → QueryCache M → Option (QueryCache M)
  set_snapshot_exporter (negsuc n) tree c = none
  set_snapshot_exporter (pos zero) tree c = none
  set_snapshot_exporter (pos (suc n)) tree c = elim c.exporter [
    | some e ↦ none
    | none ↦ some (record c { exporter = some (record { version = suc n; mtree = tree }) })
  ]

  unfoldable pub purge_snapshot_exporter : ℕ → QueryCache M → QueryCache M
  purge_snapshot_exporter height c = elim c.exporter [
    | none ↦ c
    | some e ↦
        (if e.version == height
          then record c { exporter = none; closed = c.closed ++ (e.mtree ∷ []) }
          else c)
  ]

module _ {M : Type 0} (copy : M → M) where
  unfoldable pub from_exporter : ℕ → Option (SnapshotExporter M) → Option M
  from_exporter version none = none
  from_exporter version (some e) = if e.version == version then some (copy e.mtree) else none

  -- The trees at a version, and the latest version that the same lookup saw.
  unfoldable pub get_historical_trees : ℕ → QueryCache M → Option M × ℕ
  unfolding from_exporter find_entry
  get_historical_trees version c = elim (find_entry version c.entries) [
    | none ↦ (from_exporter version c.exporter, c.latest)
    | some entry ↦ (some (copy entry), c.latest)
  ]

  unfoldable pub raise_latest : ℕ → QueryCache M → QueryCache M
  raise_latest version c = if ltb c.latest version then record c { latest = version } else c

  -- A version that is not positive, or is there, changes nothing.
  unfoldable pub add_historical_version :
      CacheOptions → M → ℤ → QueryCache M → Option (QueryCache M)
  unfolding find_entry insert_version prune_historical_trees raise_latest
  add_historical_version opts db (negsuc n) c = some c
  add_historical_version opts db (pos zero) c = some c
  add_historical_version opts db (pos (suc n)) c = elim (find_entry (suc n) c.entries) [
    | some tree ↦ some c
    | none ↦
        prune_historical_trees opts
          (record c { entries = (suc n, copy db) ∷ c.entries; seq = insert_version (suc n) c.seq })
        >>= λ c'. some (raise_latest (suc n) c')
  ]
