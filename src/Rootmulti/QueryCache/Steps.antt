-- ===== src/Rootmulti/QueryCache/Steps.antt =====
-- The query cache over its life: the calls as steps, and what every reader can rely on.
use mathlib.Core.Bool.{false≢true}
use store.Prelude.{
  ℕ, zero, suc, ◌++◌, IfReturns, true, List, [], ◌∷◌, Option, none, some, ◌≡◌, refl, sym, ap, ◌∙◌,
  arith, length, Option-cases, inl, inr, Bool-cases, ◌==◌, ◌≤◌, ◌⊎◌, ltb,
}
use store.Prelude.Int.{ℤ, pos, negsuc}
use store.Rootmulti.QueryCache.{
  CacheOptions, QueryCache, SnapshotExporter, cache_limit, find_entry, add_historical_version,
  new_query_cache, set_snapshot_exporter, purge_snapshot_exporter, reset, get_historical_trees,
}
use store.Rootmulti.QueryCache.Versions.{elem, has_tree, elem-last_of, nonempty}
use store.Rootmulti.QueryCache.Consistent.{
  IsConsistent, add_historical_version_lem, new_query_cache-IsConsistent,
}

module _ {M : Type 0} (copy : M → M) (opts : CacheOptions) where
  -- A call on the cache that returned without an error.
  pub data Step : QueryCache M → QueryCache M → Type 0 where
    adds :
        (db : M) (version : ℤ) (c c' : QueryCache M)
        → add_historical_version copy opts db version c ≡ some c'
        → Step c c'
    sets :
        (version : ℤ) (tree : M) (c c' : QueryCache M)
        → set_snapshot_exporter version tree c ≡ some c'
        → Step c c'
    purges : (version : ℕ) (c : QueryCache M) → Step c (purge_snapshot_exporter version c)
    resets : (c : QueryCache M) → Step c (reset c)

  -- The caches that a new one can become.
  pub data Reachable : QueryCache M → Type 0 where
    fresh : Reachable new_query_cache
    after : (c c' : QueryCache M) → Reachable c → Step c c' → Reachable c'

  -- Another exporter and more closed trees leave the invariant alone.
  exporter_apart :
      (c : QueryCache M) (e : Option (SnapshotExporter M)) (closed : List M)
      → IsConsistent opts c
      → IsConsistent opts (record c { exporter = e; closed = closed })
  exporter_apart c e closed h = record {
    ascending = h.ascending;
    matching = h.matching;
    newest = h.newest;
    bounded = h.bounded;
  }

  sets-IsConsistent :
      (version : ℤ) (tree : M) (c : QueryCache M)
      → IsConsistent opts c
      → IfReturns (set_snapshot_exporter version tree c) (IsConsistent opts)
  unfolding set_snapshot_exporter
  sets-IsConsistent (negsuc n) tree c h = tt
  sets-IsConsistent (pos zero) tree c h = tt
  sets-IsConsistent (pos (suc n)) tree c h = elim (Option-cases c.exporter) [
    | inl free ↦
        rw (free, set_snapshot_exporter)
          (exporter_apart c (some (record { version = suc n; mtree = tree })) c.closed h)
    | inr (e, there) ↦ rw (there, set_snapshot_exporter) tt
  ]

  purges-IsConsistent :
      (version : ℕ) (c : QueryCache M)
      → IsConsistent opts c
      → IsConsistent opts (purge_snapshot_exporter version c)
  unfolding purge_snapshot_exporter
  purges-IsConsistent version c h = elim (Option-cases c.exporter) [
    | inl free ↦ rw (free, purge_snapshot_exporter) h
    | inr (e, there) ↦ elim (Bool-cases (e.version == version)) [
      | inl same ↦
          rw (there, same, purge_snapshot_exporter)
            (exporter_apart c none (c.closed ++ (e.mtree ∷ [])) h)
      | inr other ↦ rw (there, other, purge_snapshot_exporter) h
    ]
  ]

  resets-IsConsistent : (c : QueryCache M) → IsConsistent opts (reset c)
  unfolding reset new_query_cache
  resets-IsConsistent c =
      exporter_apart new_query_cache none (reset c).closed (new_query_cache-IsConsistent opts)

  pub Step-IsConsistent :
      (c c' : QueryCache M) → IsConsistent opts c → Step c c' → IsConsistent opts c'
  Step-IsConsistent c _ h (adds db version _ c' e) =
      let added = add_historical_version_lem copy opts db version c h in (rw e at added).consistent
  Step-IsConsistent c _ h (sets version tree _ c' e) =
      let r = sets-IsConsistent version tree c h in rw e at r
  Step-IsConsistent _ _ h (purges version c) = purges-IsConsistent version c h
  Step-IsConsistent _ _ h (resets c) = resets-IsConsistent c

  pub Reachable-IsConsistent : (c : QueryCache M) → Reachable c → IsConsistent opts c
  Reachable-IsConsistent _ fresh = new_query_cache-IsConsistent opts
  Reachable-IsConsistent _ (after c c' r step) =
      Step-IsConsistent c c' (Reachable-IsConsistent c r) step

  -- The trees that a listed version has.
  listed_tree :
      (c : QueryCache M) (version : ℕ)
      → has_tree (find_entry version c.entries) ≡ true
      → (tree : M) × (find_entry version c.entries ≡ some tree)
        × (get_historical_trees copy version c ≡ (some (copy tree), c.latest))
  unfolding get_historical_trees
  listed_tree c version h = elim (Option-cases (find_entry version c.entries)) [
    | inl missing ↦ absurd (false≢true (sym (ap has_tree missing) ∙ h))
    | inr (tree, found) ↦ (tree, found, rw (found, get_historical_trees) refl)
  ]

  -- In every cache that a new one can become by calls that return without an error, at most
  -- the limit of versions is listed, and either the latest version is 0 or
  -- `GetHistoricalTrees` of it finds its trees.
  pub Reachable-latest :
      (c : QueryCache M)
      → Reachable c
      → (length c.seq ≤ cache_limit opts)
        × ((c.latest ≡ 0)
            ⊎ ((tree : M) × (find_entry c.latest c.entries ≡ some tree)
                × (get_historical_trees copy c.latest c ≡ (some (copy tree), c.latest))))
  Reachable-latest c r =
      let h = Reachable-IsConsistent c r in
      (
        h.bounded,
        elim (Bool-cases (ltb 0 c.latest)) [
          | inl p ↦
              let full = nonempty c.seq (ground (arith, h.newest)) in
              let there : elem c.latest c.seq ≡ true = rw (← h.newest) (elem-last_of c.seq full) in
              inr (listed_tree c c.latest (h.matching.same c.latest ∙ there))
          | inr p ↦ inl (ground arith)
        ],
      )
