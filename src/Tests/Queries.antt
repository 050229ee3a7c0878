-- ===== src/Tests/Queries.antt =====
-- The query cache of height 7, over trees that are numbers.
use store.Prelude.{ℕ, ◌≤◌, none, some, [], ◌∷◌, ◌≡◌, ◌⊎◌, refl, arith, length, Returns}
use store.Prelude.Int.{pos}
use store.Rootmulti.QueryCache.{
  CacheOptions, QueryCache, cache_limit, find_entry, insert_version, add_historical_version,
  new_query_cache, get_historical_trees,
}
use store.Rootmulti.QueryCache.Order.{insert_sorted, insert_version_lem}
use store.Rootmulti.QueryCache.Consistent.{HasAdded, add_historical_version_lem}
use store.Rootmulti.QueryCache.Steps.{
  Reachable, fresh, after, adds, Reachable-latest, Reachable-IsConsistent,
}

insert_version_example : insert_version 4 (2 ∷ 6 ∷ []) ≡ insert_sorted 4 (2 ∷ 6 ∷ [])
insert_version_example = insert_version_lem 4 (2 ∷ 6 ∷ []) ((omega arith, tt), (tt, tt))

abbrev copied : ℕ → ℕ
copied n = n

-- Two versions are kept beside the newest.
abbrev small_cache : CacheOptions
small_cache = record { historical_query_limit = pos 2; snapshot_interval = 0 }

abbrev with_seven : QueryCache ℕ
with_seven = record {
  entries = (7, 70) ∷ [];
  seq = 7 ∷ [];
  latest = 7;
  exporter = none;
  closed = [];
}

with_seven-Reachable : Reachable copied small_cache with_seven
unfolding add_historical_version new_query_cache
with_seven-Reachable =
    after new_query_cache with_seven fresh (adds 70 (pos 7) new_query_cache with_seven refl)

Reachable-latest_example :
    (length with_seven.seq ≤ cache_limit small_cache)
    × ((with_seven.latest ≡ 0)
        ⊎ ((tree : ℕ) × (find_entry 7 with_seven.entries ≡ some tree)
            × (get_historical_trees copied 7 with_seven ≡ (some tree, 7))))
Reachable-latest_example = Reachable-latest copied small_cache with_seven with_seven-Reachable

-- An older version goes before the newer one.
add_historical_version_example :
    Returns
      (add_historical_version copied small_cache 50 (pos 5) with_seven)
      (HasAdded copied small_cache 50 (pos 5) with_seven)
add_historical_version_example =
    add_historical_version_lem copied small_cache 50 (pos 5) with_seven
      (Reachable-IsConsistent copied small_cache with_seven with_seven-Reachable)
