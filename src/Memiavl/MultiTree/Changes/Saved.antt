-- ===== src/Memiavl/MultiTree/Changes/Saved.antt =====
-- `SaveVersion` of memiavl/multitree.go: all trees commit the next version, and the commit info holds
-- the hash of each.
use store.Prelude.{
  ℕ, ◌+◌, ◌<◌, ◌≤◌, Bool, true, false, Option, List, [], ◌∷◌, ◌≡◌, refl, sym, ap₂, ◌∙◌, arith, All,
  Returns, Returns_inv, ltb, if◌then◌else◌,
}
use store.Bytes.{Bytes}
use store.Memiavl.Tree.{Cache, Tree, tree_entries, save_version, max_int64}
use store.Memiavl.Tree.Cached.{CacheLaws}
use store.Memiavl.Tree.Saves.{root_content_hash, root_hash_lem, HasSaved, save_version_lem}
use store.Memiavl.Versions.{next_version}
use store.Memiavl.MultiTree.{
  NamedTree, MultiTree, StoreInfo, Outcome, done, failed, panicked, ◌>>=◌, map_outcome,
}
use store.Memiavl.MultiTree.Names.{Ends}
use store.Memiavl.MultiTree.Consistent.{IsReady, IsConsistent}
use store.Memiavl.MultiTree.Changes.{
  save_trees, store_info, store_infos_of, build_commit_info, update_commit_info, finish_save,
  multi_save_version,
}
use store.Memiavl.MultiTree.Changes.Views.{table_of}
use store.Memiavl.MultiTree.Same.{
  infos_at, IsSameTree, AreSame, AreSame-trans, AreSame-table_of, AreSame-infos_at,
  AreSame-index_of, AreSame-IsAscending,
}

module _ (c : Cache) (laws : CacheLaws c) (sha256 : Bytes → Bytes) where
  open c use {State}

  -- Trees that are the same and are ready for version `version`.
  record AreSaved (version : ℕ) (trees trees' : List (NamedTree State)) : Type 0 where
    same : AreSame sha256 trees trees'
    ready : All (IsReady c laws sha256 version) trees'

  saved_tree :
      (update : Bool) (version : ℕ) (e : NamedTree State) (r : Option Bytes × ℕ × Tree State)
      → IsReady c laws sha256 version e
      → HasSaved sha256 e.tree update r
      → IsSameTree sha256 e (record e { tree = r.2 })
        × IsReady c laws sha256 (version + 1) (record e { tree = r.2 })
  saved_tree update version e r ready s = (
    record { same_name = refl; same_entries = s.same; same_hash = s.same_hash },
    record {
      sound = record {
        root_valid = s.valid ready.sound.root_valid;
        coherent = rw (s.same, s.same_cache) ready.sound.coherent;
      };
      fresh = s.fresh;
      next = omega (arith, s.versioned, ready.next);
    },
  )

  save_trees_lem :
      (update : Bool) (version : ℕ) (trees : List (NamedTree State))
      → All (IsReady c laws sha256 version) trees
      → version ≤ max_int64
      → Ends (save_trees sha256 update trees) (AreSaved (version + 1) trees) (λ e _. ⊥)
  unfolding save_trees
  save_trees_lem update version [] h n = record { same = tt; ready = tt }
  save_trees_lem update version (e ∷ trees) h n =
      let (r, saved, s) =
        Returns_inv (HasSaved sha256 e.tree update) (save_version sha256 update e.tree)
          (save_version_lem sha256 update e.tree h.0.fresh (omega (arith, h.0.next))) in
      let (same, ready) = saved_tree update version e r h.0 s in
      rw (saved, save_trees)
        (go (record e { tree = r.2 }) same ready (save_trees sha256 update trees)
          (save_trees_lem update version trees h.1 n))
    where
      go :
          (e' : NamedTree State)
          → IsSameTree sha256 e e'
          → IsReady c laws sha256 (version + 1) e'
          → (o : Outcome (List (NamedTree State)))
          → Ends o (AreSaved (version + 1) trees) (λ x _. ⊥)
          → Ends (map_outcome (◌∷◌ e') o) (AreSaved (version + 1) (e ∷ trees)) (λ x _. ⊥)
      go e' same ready (done ys) k = record { same = (same, k.same); ready = (ready, k.ready) }
      go e' same ready (failed x ys) k = k
      go e' same ready panicked k = k

  -- The commit infos of trees at a version, with the trees that keep their hashes.
  record HasInfos (version : ℕ) (trees : List (NamedTree State))
      (r : List StoreInfo × List (NamedTree State)) : Type 0 where
    infos : r.0 ≡ infos_at sha256 version trees
    saved : AreSaved (version + 1) trees r.1

  store_info_lem :
      (version : ℕ) (e : NamedTree State)
      → IsReady c laws sha256 (version + 1) e
      → version ≤ max_int64
      → Returns (store_info sha256 e) (λ r.
        (r.0 ≡ record {
          name = e.name;
          version = version;
          hash = root_content_hash sha256 e.tree.root;
        })
        × IsSameTree sha256 e r.1
        × IsReady c laws sha256 (version + 1) r.1)
  unfolding store_info tree_entries
  store_info_lem version e h n =
      let v : e.tree.version ≡ version = omega (arith, h.next) in
      let fits : ltb max_int64 e.tree.version ≡ false = ground (arith, h.next) in
      let k = root_hash_lem sha256 e.tree.root h.fresh in
      rw fits (
        rw (k.value, v) refl,
        record { same_name = refl; same_entries = k.same; same_hash = k.same_hash },
        record {
          sound = record {
            root_valid = k.valid h.sound.root_valid;
            coherent = rw k.same h.sound.coherent;
          };
          fresh = k.fresh;
          next = h.next;
        },
      )

  store_infos_lem :
      (version : ℕ) (trees : List (NamedTree State))
      → All (IsReady c laws sha256 (version + 1)) trees
      → version ≤ max_int64
      → Returns (store_infos_of sha256 trees) (HasInfos version trees)
  unfolding store_infos_of infos_at
  store_infos_lem version [] h n = record { infos = refl; saved = record { same = tt; ready = tt } }
  store_infos_lem version (e ∷ trees) h n =
      let ((info, e'), p, q) =
        Returns_inv _ (store_info sha256 e) (store_info_lem version e h.0 n) in
      let ((infos, trees'), ps, qs) =
        Returns_inv (HasInfos version trees) (store_infos_of sha256 trees)
          (store_infos_lem version trees h.1 n) in
      rw (p, ps, store_infos_of)
        (record {
          infos = ap₂ ◌∷◌ q.0 qs.infos;
          saved = record { same = (q.1, qs.saved.same); ready = (q.2, qs.saved.ready) };
        })

  -- What `SaveVersion` makes of a multi-tree, and of its commit info.
  pub record HasCommitted (update : Bool) (t t' : MultiTree State) : Type 0 where
    pub consistent : IsConsistent c laws sha256 t'
    pub bumped :
        t'.last_commit_info.version ≡ next_version t.last_commit_info.version t.initial_version
    pub infos : t'.last_commit_info.store_infos ≡ (
        if update
        then infos_at sha256 (next_version t.last_commit_info.version t.initial_version) t.trees
        else [])
    pub same_table : table_of t'.trees ≡ table_of t.trees
    pub same_initial : t'.initial_version ≡ t.initial_version

  pub next_version-bound :
      (v initial : ℕ)
      → v < max_int64
      → initial ≤ max_int64
      → (next_version v initial ≤ max_int64)
        × (next_version (next_version v initial) initial ≡ next_version v initial + 1)
  unfolding next_version
  next_version-bound v initial n m = (ground arith, ground arith)

  -- A multi-tree with the saved trees and the new commit info.
  committed :
      (update : Bool) (t : MultiTree State) (trees : List (NamedTree State))
      (infos : List StoreInfo)
      → IsConsistent c laws sha256 t
      → t.last_commit_info.version < max_int64
      → t.initial_version ≤ max_int64
      → AreSaved (next_version t.last_commit_info.version t.initial_version + 1) t.trees trees
      → infos ≡ (
          if update
          then infos_at sha256 (next_version t.last_commit_info.version t.initial_version) t.trees
          else [])
      → HasCommitted update t (record t {
        trees = trees;
        last_commit_info = record {
          version = next_version t.last_commit_info.version t.initial_version;
          store_infos = infos;
        };
      })
  committed update t trees infos h n m s e = record {
    consistent = record {
      indexed = record {
        ascending = AreSame-IsAscending sha256 t.trees trees s.same h.indexed.ascending;
        exact =
            λ name. h.indexed.exact name ∙ sym (AreSame-index_of sha256 name t.trees trees s.same);
      };
      ready = rw ((next_version-bound t.last_commit_info.version t.initial_version n m).1) s.ready;
    };
    bumped = refl;
    infos = e;
    same_table = AreSame-table_of sha256 t.trees trees s.same;
    same_initial = refl;
  }

  AreSaved-trans :
      (version : ℕ) (x y z : List (NamedTree State))
      → AreSaved version x y
      → AreSaved version y z
      → AreSaved version x z
  AreSaved-trans version x y z p q = record {
    same = AreSame-trans sha256 x y z p.same q.same;
    ready = q.ready;
  }

  -- With an admissible cache and any hash function, on a consistent multi-tree (names
  -- ascending and indexed, trees sound with kept hashes of their contents, all to commit the
  -- same next version) whose version is below 2 ^ 63 - 1 and whose initial version is not
  -- above that, `SaveVersion` returns: the multi-tree is consistent and has the next version,
  -- its commit info has with the update each tree's name, that version and the hash of its
  -- contents, else nothing, and the sorted lists under the names and the initial version are
  -- the same.
  pub multi_save_version_lem :
      (update : Bool) (t : MultiTree State)
      → IsConsistent c laws sha256 t
      → t.last_commit_info.version < max_int64
      → t.initial_version ≤ max_int64
      → Ends (multi_save_version sha256 update t) (HasCommitted update t) (λ e _. ⊥)
  unfolding multi_save_version finish_save update_commit_info build_commit_info
  multi_save_version_lem update t h n m =
      let version = next_version t.last_commit_info.version t.initial_version in
      let bound = (next_version-bound t.last_commit_info.version t.initial_version n m).0 in
      go update (save_trees sha256 update t.trees)
        (save_trees_lem update version t.trees h.ready bound)
    where
      go :
          (u : Bool) (o : Outcome (List (NamedTree State)))
          → Ends o
              (AreSaved (next_version t.last_commit_info.version t.initial_version + 1) t.trees)
              (λ e _. ⊥)
          → Ends
              (map_outcome
                  (λ trees. record t {
                    trees = trees;
                    last_commit_info = record t.last_commit_info {
                      version = next_version t.last_commit_info.version t.initial_version;
                    };
                  })
                  o
                >>= finish_save sha256 u)
              (HasCommitted u t)
              (λ e _. ⊥)
      go u (failed e trees) s = s
      go u panicked s = s
      go false (done trees) s = committed false t trees [] h n m s refl
      go true (done trees) s =
          let version = next_version t.last_commit_info.version t.initial_version in
          let bound = (next_version-bound t.last_commit_info.version t.initial_version n m).0 in
          let ((infos, trees'), p, q) =
            Returns_inv (HasInfos version trees) (store_infos_of sha256 trees)
              (store_infos_lem version trees s.ready bound) in
          rw (p, finish_save, update_commit_info, build_commit_info)
            (committed true t trees' infos h n m
              (AreSaved-trans (version + 1) t.trees trees trees' s q.saved)
              (q.infos ∙ AreSame-infos_at sha256 version t.trees trees s.same))

  -- What `UpdateCommitInfo` makes of a multi-tree with a version.
  pub record HasInfo (t t' : MultiTree State) : Type 0 where
    pub consistent : IsConsistent c laws sha256 t'
    pub same_version : t'.last_commit_info.version ≡ t.last_commit_info.version
    pub infos : t'.last_commit_info.store_infos ≡ infos_at sha256 t.last_commit_info.version t.trees
    pub current :
        t'.last_commit_info.store_infos ≡ infos_at sha256 t'.last_commit_info.version t'.trees
    pub same_table : table_of t'.trees ≡ table_of t.trees
    pub same_initial : t'.initial_version ≡ t.initial_version

  pub update_commit_info_lem :
      (t : MultiTree State)
      → IsConsistent c laws sha256 t
      → 0 < t.last_commit_info.version
      → t.last_commit_info.version ≤ max_int64
      → Ends (update_commit_info sha256 t) (HasInfo t) (λ e _. ⊥)
  unfolding update_commit_info build_commit_info
  update_commit_info_lem t h p n =
      let v = t.last_commit_info.version in
      let after : next_version v t.initial_version ≡ v + 1 = unfold next_version in ground arith in
      let ((infos, trees'), e, q) =
        Returns_inv (HasInfos v t.trees) (store_infos_of sha256 t.trees)
          (store_infos_lem v t.trees (rw after at h.ready) n) in
      rw (e, update_commit_info, build_commit_info)
        (record {
          consistent = record {
            indexed = record {
              ascending =
                  AreSame-IsAscending sha256 t.trees trees' q.saved.same h.indexed.ascending;
              exact = λ name.
                  h.indexed.exact name
                  ∙ sym (AreSame-index_of sha256 name t.trees trees' q.saved.same);
            };
            ready = rw after q.saved.ready;
          };
          same_version = refl;
          infos = q.infos;
          current = q.infos ∙ sym (AreSame-infos_at sha256 v t.trees trees' q.saved.same);
          same_table = AreSame-table_of sha256 t.trees trees' q.saved.same;
          same_initial = refl;
        })
