-- ===== src/Memiavl/MultiTree/Kept.antt =====
-- A property that every tree of a multi-tree has is kept by the upgrades of names.
use store.Prelude.{
  ℕ, zero, suc, ◌-◌, Option, none, some, List, [], ◌∷◌, ◌≡◌, All, All-append, Bool-cases, inl, inr,
  Option-cases, get_elem?, ltb, length, take, subst,
}
use store.Bytes.{Bytes}
use store.Memiavl.Tree.{new_with_initial_version}
use store.Memiavl.Versions.{next_version}
use store.Memiavl.MultiTree.{
  NamedTree, MultiTree, TreeNameUpgrade, Outcome, done, failed, panicked, ◌>>=◌, map_outcome,
  index_of, write_at, swap_delete, rename, apply_upgrade, upgrade_loop, reindex, apply_upgrades,
}
use store.Memiavl.MultiTree.Names.{Ends, All-sort_by_name}
use store.Memiavl.MultiTree.Upgrades.{HasReindexed, HasConflict, reindex_lem}

module _ {S : Type 0} (P : NamedTree S → Type 0) where
  All-take : (n : ℕ) (xs : List (NamedTree S)) → All P xs → All P (take n xs)
  All-take zero xs h = tt
  All-take (suc n) [] h = tt
  All-take (suc n) (x ∷ xs) h = (h.0, All-take n xs h.1)

  pub All-get_elem? :
      (xs : List (NamedTree S)) (i : ℕ) (x : NamedTree S) → All P xs → get_elem? xs i ≡ some x → P x
  All-get_elem? [] i x h e = absurd (none_some x e)
    where
      none_some : (x : NamedTree S) → none ≡ some x → ⊥
      none_some x e = cc
  All-get_elem? (y ∷ xs) zero x h e = subst P (injective y x e) h.0
    where
      injective : (y x : NamedTree S) → some y ≡ some x → y ≡ x
      injective y x e = cc
  All-get_elem? (y ∷ xs) (suc i) x h e = All-get_elem? xs i x h.1 e

  pub All-write_at :
      (xs : List (NamedTree S)) (i : ℕ) (f : NamedTree S → NamedTree S)
      → ((x : NamedTree S) → P x → P (f x))
      → All P xs
      → All P (write_at xs i f)
  unfolding write_at
  All-write_at [] i f k h = tt
  All-write_at (x ∷ xs) zero f k h = (k x h.0, h.1)
  All-write_at (x ∷ xs) (suc i) f k h = (h.0, All-write_at xs i f k h.1)

  All-swap_delete : (xs : List (NamedTree S)) (i : ℕ) → All P xs → All P (swap_delete xs i)
  unfolding swap_delete
  All-swap_delete xs i h = elim (Option-cases (get_elem? xs (length xs - 1))) [
    | inl e ↦ rw (e, swap_delete) h
    | inr (last, e) ↦
        let p = All-get_elem? xs (length xs - 1) last h e in
        rw (e, swap_delete)
          (All-take (length xs - 1) (write_at xs i (λ _. last))
            (All-write_at xs i (λ _. last) (λ x _. p) h))
  ]

  -- A property that renaming keeps and a new tree has is kept by the upgrades, also by those that fail.
  module _ (version : ℕ) (cache : Option S)
      (renamed : (name : Bytes) (x : NamedTree S) → P x → P (rename name x))
      (created : (name : Bytes)
        → P (record { tree = new_with_initial_version version cache; name = name })) where
    apply_upgrade-All :
        (upgrade : TreeNameUpgrade) (xs : List (NamedTree S))
        → All P xs
        → Ends (apply_upgrade version cache upgrade xs) (All P) (λ e. All P)
    unfolding apply_upgrade
    apply_upgrade-All upgrade xs h = elim (Bool-cases upgrade.delete) [
      | inl del ↦ elim (Option-cases (index_of upgrade.name xs)) [
        | inl e ↦ rw (del, e) h
        | inr (i, e) ↦ rw (del, e) (All-swap_delete xs i h)
      ]
      | inr keep ↦ elim (Bool-cases (ltb 0 (length upgrade.rename_from))) [
        | inl ren ↦ elim (Option-cases (index_of upgrade.rename_from xs)) [
          | inl e ↦ rw (keep, ren, e) h
          | inr (i, e) ↦
              rw (keep, ren, e) (All-write_at xs i (rename upgrade.name) (renamed upgrade.name) h)
        ]
        | inr new ↦ rw (keep, new) (All-append P xs _ h (created upgrade.name, tt))
      ]
    ]

    pub upgrade_loop-All :
        (upgrades : List TreeNameUpgrade) (xs : List (NamedTree S))
        → All P xs
        → Ends (upgrade_loop version cache upgrades xs) (All P) (λ e. All P)
    unfolding upgrade_loop
    upgrade_loop-All [] xs h = h
    upgrade_loop-All (upgrade ∷ upgrades) xs h =
        go (apply_upgrade version cache upgrade xs) (apply_upgrade-All upgrade xs h)
          (upgrade_loop-All upgrades)
      where
        go :
            (o : Outcome (List (NamedTree S)))
            → Ends o (All P) (λ e. All P)
            → ((ys : List (NamedTree S))
                → All P ys
                → Ends (upgrade_loop version cache upgrades ys) (All P) (λ e. All P))
            → Ends (o >>= upgrade_loop version cache upgrades) (All P) (λ e. All P)
        go (done ys) h k = k ys h
        go (failed e ys) h k = h
        go panicked h k = h

  reindex-All :
      (t : MultiTree S)
      → All P t.trees
      → Ends (reindex t) (λ t'. All P t'.trees) (λ e t'. All P t'.trees)
  reindex-All t h = go (reindex t) (reindex_lem t)
    where
      go :
          (o : Outcome (MultiTree S))
          → Ends o (HasReindexed t) (λ e. HasConflict t)
          → Ends o (λ t'. All P t'.trees) (λ e t'. All P t'.trees)
      go (done t') r = rw r.sorted ((All-sort_by_name P t.trees).1 h)
      go (failed e t') r = rw r.sorted ((All-sort_by_name P t.trees).1 h)
      go panicked r = r

  pub apply_upgrades-All :
      (new_cache : ℕ → Option S)
      → ((name : Bytes) (x : NamedTree S) → P x → P (rename name x))
      → ((version size : ℕ) (name : Bytes)
          → P (record { tree = new_with_initial_version version (new_cache size); name = name }))
      → (upgrades : List TreeNameUpgrade) (t : MultiTree S) → All P t.trees
      → Ends (apply_upgrades new_cache upgrades t) (λ t'. All P t'.trees) (λ e t'. All P t'.trees)
  unfolding apply_upgrades
  apply_upgrades-All new_cache renamed created [] t h = h
  apply_upgrades-All new_cache renamed created (upgrade ∷ upgrades) t h =
      let version = next_version t.last_commit_info.version t.initial_version in
      go (upgrade_loop version (new_cache t.cache_size) (upgrade ∷ upgrades) t.trees) (
        upgrade_loop-All version (new_cache t.cache_size) renamed (created version t.cache_size)
          (upgrade ∷ upgrades) t.trees h)
    where
      go :
          (o : Outcome (List (NamedTree S)))
          → Ends o (All P) (λ e. All P)
          → Ends
              (map_outcome (λ trees. record t { trees = trees; trees_by_name = [] }) o >>= reindex)
              (λ t'. All P t'.trees)
              (λ e t'. All P t'.trees)
      go (done trees) r = reindex-All (record t { trees = trees; trees_by_name = [] }) r
      go (failed e trees) r = r
      go panicked r = r
