-- ===== src/Memiavl/MultiTree/Consistent.antt =====
-- The invariant of a multi-tree: names and index agree, its trees are sound, and all of them are to
-- commit the same version next. `ApplyUpgrades` keeps it.
use store.Prelude.{
  ℕ, ◌+◌, ◌^◌, ◌<◌, Option, none, some, List, [], ◌∷◌, ◌≡◌, refl, arith, All, Bool-cases, inl, inr,
  leb,
}
use store.Bytes.{Bytes}
use store.Memiavl.Node.Hash.Writes.{IsFreshRoot}
use store.Memiavl.Tree.{Cache, new_with_initial_version, new_empty_tree, root_entries, tree_entries}
use store.Memiavl.Tree.Cached.{CacheLaws, IsSound, IsCoherent}
use store.Memiavl.Versions.{next_version}
use store.Memiavl.MultiTree.{
  NamedTree, MultiTree, TreeNameUpgrade, Error, Outcome, done, failed, panicked, ◌>>=◌, map_outcome,
  rename, upgrade_loop, reindex, apply_upgrades,
}
use store.Memiavl.MultiTree.Names.{Ends, All-sort_by_name}
use store.Memiavl.MultiTree.Upgrades.{IsIndexed, HasReindexed, HasConflict, reindex_lem}
use store.Memiavl.MultiTree.Kept.{upgrade_loop-All}

-- A new cache of any size holds nothing.
pub record NewCacheLaws (c : Cache) (new_cache : ℕ → Option c.State) : Type 0 where
  pub find_new :
      (size : ℕ) (s : c.State) (k : Bytes) (w : Option Bytes)
      → new_cache size ≡ some s
      → c.find k s ≡ some w
      → ⊥

module _ (c : Cache) (laws : CacheLaws c) (sha256 : Bytes → Bytes) where
  open c use {State}

  -- A tree that is to commit version `version` next.
  pub record IsReady (version : ℕ) (entry : NamedTree State) : Type 0 where
    pub sound : IsSound c laws entry.tree
    pub fresh : IsFreshRoot sha256 entry.tree.root
    pub next : entry.tree.version + 1 ≡ version

  pub record IsConsistent (t : MultiTree State) : Type 0 where
    pub indexed : IsIndexed t
    pub ready : All (IsReady (next_version t.last_commit_info.version t.initial_version)) t.trees

  pub next_version-pos : (v initial : ℕ) → v < 2 ^ 63 → 0 < next_version v initial
  unfolding next_version
  next_version-pos v initial h = ground arith

  module _ (new_cache : ℕ → Option State) (empty : NewCacheLaws c new_cache) where
    new_tree-IsReady :
        (version size : ℕ) (name : Bytes)
        → 0 < version
        → IsReady version
            (record { tree = new_with_initial_version version (new_cache size); name = name })
    unfolding new_with_initial_version new_empty_tree tree_entries root_entries
    new_tree-IsReady version size name h = elim (Bool-cases (leb version 1)) [
      | inl e ↦ rw e (record {
        sound = record { root_valid = tt; coherent = coherent (new_cache size) refl };
        fresh = tt;
        next = ground arith;
      })
      | inr e ↦ rw e (record {
        sound = record { root_valid = tt; coherent = coherent (new_cache size) refl };
        fresh = tt;
        next = ground arith;
      })
    ]
      where
        coherent : (s : Option State) → new_cache size ≡ s → IsCoherent c laws [] s
        coherent none e = tt
        coherent (some s) e = λ k w f. absurd (empty.find_new size s k w e f)

    -- What `ApplyUpgrades` makes of a multi-tree.
    pub record HasUpgraded (t t' : MultiTree State) : Type 0 where
      pub consistent : IsConsistent t'
      pub same_info : t'.last_commit_info ≡ t.last_commit_info
      pub same_initial : t'.initial_version ≡ t.initial_version

    -- The trees after an error: sound, and to commit the same version next.
    pub record IsLeft (t : MultiTree State) (e : Error) (t' : MultiTree State) : Type 0 where
      pub ready : All (IsReady (next_version t.last_commit_info.version t.initial_version)) t'.trees
      pub same_info : t'.last_commit_info ≡ t.last_commit_info

    reindexed :
        (t : MultiTree State) (trees : List (NamedTree State))
        → All (IsReady (next_version t.last_commit_info.version t.initial_version)) trees
        → (o : Outcome (MultiTree State))
        → Ends o
            (HasReindexed (record t { trees = trees; trees_by_name = [] }))
            (λ e. HasConflict (record t { trees = trees; trees_by_name = [] }))
        → Ends o (HasUpgraded t) (IsLeft t)
    reindexed t trees r (done t') h =
        let ready =
          (All-sort_by_name (IsReady (next_version t.last_commit_info.version t.initial_version))
              trees).1
            r in
        record {
          consistent = record {
            indexed = h.indexed;
            ready = rw (h.same_info, h.same_initial, h.sorted) ready;
          };
          same_info = h.same_info;
          same_initial = h.same_initial;
        }
    reindexed t trees r (failed e t') h =
        let ready =
          (All-sort_by_name (IsReady (next_version t.last_commit_info.version t.initial_version))
              trees).1
            r in
        record { ready = rw h.sorted ready; same_info = h.same_info }
    reindexed t trees r panicked h = h

    -- With an admissible cache and any hash function, on a consistent multi-tree (names
    -- ascending and indexed, trees sound with kept hashes of their contents, all to commit
    -- the same next version) with a version below 2 ^ 63, when new caches hold nothing,
    -- `ApplyUpgrades` either returns: the multi-tree is consistent again and has the same
    -- commit info and initial version; or it returns an error: the trees that it leaves are
    -- sound, are to commit the same next version, and the commit info is the same. It does
    -- not panic.
    pub apply_upgrades-IsConsistent :
        (upgrades : List TreeNameUpgrade) (t : MultiTree State)
        → IsConsistent t
        → t.last_commit_info.version < 2 ^ 63
        → Ends (apply_upgrades new_cache upgrades t) (HasUpgraded t) (IsLeft t)
    unfolding apply_upgrades
    apply_upgrades-IsConsistent [] t h n = record {
      consistent = h;
      same_info = refl;
      same_initial = refl;
    }
    apply_upgrades-IsConsistent (upgrade ∷ upgrades) t h n =
        let version = next_version t.last_commit_info.version t.initial_version in
        go (upgrade_loop version (new_cache t.cache_size) (upgrade ∷ upgrades) t.trees) (
          upgrade_loop-All (IsReady version) version (new_cache t.cache_size)
            (λ name x r. record {
              sound = unfold rename in r.sound;
              fresh = unfold rename in r.fresh;
              next = unfold rename in r.next;
            })
            (λ name.
              new_tree-IsReady version t.cache_size name
                (next_version-pos t.last_commit_info.version t.initial_version n))
            (upgrade ∷ upgrades) t.trees h.ready)
      where
        go :
            (o : Outcome (List (NamedTree State)))
            → Ends o
                (All (IsReady (next_version t.last_commit_info.version t.initial_version)))
                (λ e. All (IsReady (next_version t.last_commit_info.version t.initial_version)))
            → Ends
                (map_outcome (λ trees. record t { trees = trees; trees_by_name = [] }) o
                  >>= reindex)
                (HasUpgraded t)
                (IsLeft t)
        go (done trees) r =
            let t1 : MultiTree State = record t { trees = trees; trees_by_name = [] } in
            reindexed t trees r (reindex t1) (reindex_lem t1)
        go (failed e trees) r = record { ready = r; same_info = refl }
        go panicked r = r
