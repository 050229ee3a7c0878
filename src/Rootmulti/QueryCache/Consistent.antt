-- ===== src/Rootmulti/QueryCache/Consistent.antt =====
-- The fields of the query cache stay in step under `AddHistoricalVersion`.
use store.Prelude.{
  ℕ, zero, suc, ◌≤◌, ◌<◌, max, true, false, ◌∷◌, some, ◌≡◌, refl, sym, ap, ◌∙◌, arith, ltb, ◌==◌,
  length, Bool-cases, Option-cases, inl, inr, Returns, Returns-bind, ltb→lt,
}
use store.Prelude.Int.{ℤ, pos, negsuc, pos_part}
use store.Rootmulti.QueryCache.{
  CacheOptions, QueryCache, cache_limit, last_of, insert_version, find_entry, prune_loop,
  prune_historical_trees, raise_latest, add_historical_version, new_query_cache,
}
use store.Rootmulti.QueryCache.Order.{
  IsAscending, insert_sorted-IsAscending, insert_version_lem, All-le_last,
}
use store.Rootmulti.QueryCache.Versions.{
  elem, has_tree, elem-insert_sorted, last_of-insert_sorted, elem-last_of, elem_le, nonempty,
}
use store.Rootmulti.QueryCache.Pruning.{IsMatching, IsPruned, prune_loop_lem}

-- The invariant: the versions ascend, have their trees, end in the latest one, and keep to the limit.
pub record IsConsistent {M : Type 0} (opts : CacheOptions) (c : QueryCache M) : Type 0 where
  pub ascending : IsAscending c.seq
  pub matching : IsMatching c.seq c.entries
  pub newest : last_of c.seq ≡ c.latest
  pub bounded : length c.seq ≤ cache_limit opts

module _ {M : Type 0} (copy : M → M) (opts : CacheOptions) (db : M) where
  -- The cache after `AddHistoricalVersion`.
  pub record HasAdded (version : ℤ) (c c' : QueryCache M) : Type 0 where
    pub consistent : IsConsistent opts c'
    pub raised : c'.latest ≡ max (pos_part version) c.latest
    pub served :
        c.latest < pos_part version → find_entry (pos_part version) c'.entries ≡ some (copy db)
    pub same_exporter : c'.exporter ≡ c.exporter

  unchanged :
      (version : ℤ) (c : QueryCache M)
      → IsConsistent opts c
      → pos_part version ≤ c.latest
      → HasAdded version c c
  unchanged version c h p = record {
    consistent = h;
    raised = omega arith;
    served = λ q. absurd (omega arith);
    same_exporter = refl;
  }

  one_le_cache_limit : 1 ≤ cache_limit opts
  unfolding cache_limit
  one_le_cache_limit = omega arith

  known :
      (n : ℕ) (tree : M) (c : QueryCache M)
      → IsConsistent opts c
      → find_entry (suc n) c.entries ≡ some tree
      → suc n ≤ c.latest
  known n tree c h found = rw (← h.newest) (
      elem_le (suc n) (last_of c.seq) c.seq (All-le_last c.seq h.ascending)
        (sym (h.matching.same (suc n)) ∙ ap has_tree found))

  -- What `pruneHistoricalTrees` makes of the cache.
  record HasPruned (c c' : QueryCache M) : Type 0 where
    pruned : IsPruned (cache_limit opts) c.seq c.entries (c'.seq, c'.entries, c'.closed)
    same_latest : c'.latest ≡ c.latest
    same_exporter : c'.exporter ≡ c.exporter

  prune_historical_trees_lem :
      (c : QueryCache M)
      → IsAscending c.seq
      → IsMatching c.seq c.entries
      → Returns (prune_historical_trees opts c) (HasPruned c)
  unfolding prune_historical_trees
  prune_historical_trees_lem c s m =
      let positive : (cache_limit opts == 0) ≡ false = ground (arith, one_le_cache_limit) in
      rw positive (
        Returns-bind _ (HasPruned c) (prune_loop (cache_limit opts) c.seq c.entries c.closed) _
          (prune_loop_lem (cache_limit opts) c.seq c.entries c.closed one_le_cache_limit s m)
          (λ r h. record { pruned = h; same_latest = refl; same_exporter = refl }))

  -- The cache before it is pruned.
  abbrev with_version : ℕ → QueryCache M → QueryCache M
  with_version n c = record c {
    entries = (suc n, copy db) ∷ c.entries;
    seq = insert_version (suc n) c.seq;
  }

  IsMatching-added :
      (n : ℕ) (c : QueryCache M)
      → IsConsistent opts c
      → IsMatching (insert_version (suc n) c.seq) ((suc n, copy db) ∷ c.entries)
  unfolding find_entry
  IsMatching-added n c h = record {
    same = λ w.
        rw (insert_version_lem (suc n) c.seq h.ascending, elem-insert_sorted w (suc n) c.seq)
          (elim (Bool-cases (suc n == w)) [
            | inl e ↦ rw (e, find_entry) refl
            | inr e ↦ rw (e, find_entry) (h.matching.same w)
          ]);
  }

  newest_pruned :
      (n : ℕ) (c c' : QueryCache M)
      → IsConsistent opts c
      → HasPruned (with_version n c) c'
      → last_of c'.seq ≡ max (suc n) c.latest
  newest_pruned n c c' h p =
      p.pruned.newest
      ∙ ap last_of (insert_version_lem (suc n) c.seq h.ascending)
      ∙ last_of-insert_sorted (suc n) c.seq h.ascending
      ∙ ap (max (suc n)) h.newest

  served_new :
      (n : ℕ) (c c' : QueryCache M)
      → IsConsistent opts c
      → HasPruned (with_version n c) c'
      → c.latest < suc n
      → find_entry (suc n) c'.entries ≡ some (copy db)
  unfolding find_entry
  served_new n c c' h p q =
      let e : last_of c'.seq ≡ suc n = omega (arith, newest_pruned n c c' h p) in
      let there : elem (suc n) c'.seq ≡ true =
        rw (← e) (elem-last_of c'.seq (nonempty c'.seq (omega arith))) in
      p.pruned.kept (suc n) there ∙ ground arith

  raised_lem :
      (n : ℕ) (c c' : QueryCache M)
      → IsConsistent opts c
      → HasPruned (with_version n c) c'
      → (l : ℕ) → l ≡ max (suc n) c.latest
      → HasAdded (pos (suc n)) c (record c' { latest = l })
  raised_lem n c c' h p l e = record {
    consistent = record {
      ascending = p.pruned.ascending;
      matching = p.pruned.matching;
      newest = newest_pruned n c c' h p ∙ sym e;
      bounded = p.pruned.bounded;
    };
    raised = e;
    served = served_new n c c' h p;
    same_exporter = p.same_exporter;
  }

  added :
      (n : ℕ) (c : QueryCache M)
      → IsConsistent opts c
      → (c' : QueryCache M) → HasPruned (with_version n c) c'
      → HasAdded (pos (suc n)) c (raise_latest copy (suc n) c')
  unfolding raise_latest
  added n c h c' p = elim (Bool-cases (ltb c'.latest (suc n))) [
    | inl more ↦ rw more (
        raised_lem n c c' h p (suc n) (omega (arith, p.same_latest, ltb→lt c'.latest (suc n) more)))
    | inr level ↦ rw level (raised_lem n c c' h p c'.latest (not_raised n c c' p level))
  ]
    where
      not_raised :
          (n : ℕ) (c c' : QueryCache M)
          → HasPruned (with_version n c) c'
          → ltb c'.latest (suc n) ≡ false
          → c'.latest ≡ max (suc n) c.latest
      not_raised n c c' p q = ground (arith, p.same_latest)

  -- On a consistent cache (versions ascending, exactly those with a tree, ending in the latest
  -- one, and within the limit) `AddHistoricalVersion` returns without a nil dereference, and
  -- the cache stays consistent with the same exporter; its latest version is the larger of the
  -- two, and a version above the old latest one is there with the copy.
  pub add_historical_version_lem :
      (version : ℤ) (c : QueryCache M)
      → IsConsistent opts c
      → Returns (add_historical_version copy opts db version c) (HasAdded version c)
  unfolding add_historical_version
  add_historical_version_lem (negsuc n) c h = unchanged (negsuc n) c h (omega arith)
  add_historical_version_lem (pos zero) c h = unchanged (pos zero) c h (omega arith)
  add_historical_version_lem (pos (suc n)) c h =
      elim (Option-cases (find_entry (suc n) c.entries)) [
        | inl missing ↦
            rw (missing, add_historical_version)
              (Returns-bind (HasPruned (with_version n c)) _
                (prune_historical_trees opts (with_version n c)) _
                (prune_historical_trees_lem (with_version n c)
                  (rw (insert_version_lem (suc n) c.seq h.ascending)
                    (insert_sorted-IsAscending (suc n) c.seq h.ascending))
                  (IsMatching-added n c h))
                (added n c h))
        | inr (tree, found) ↦
            rw (found, add_historical_version)
              (unchanged (pos (suc n)) c h (known n tree c h found))
      ]

-- A new cache is in step.
pub new_query_cache-IsConsistent :
    {M : Type 0} (opts : CacheOptions) → IsConsistent {M = M} opts new_query_cache
unfolding new_query_cache find_entry elem last_of
new_query_cache-IsConsistent opts = record {
  ascending = tt;
  matching = record { same = λ w. refl };
  newest = refl;
  bounded = omega arith;
}
