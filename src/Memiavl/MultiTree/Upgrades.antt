-- ===== src/Memiavl/MultiTree/Upgrades.antt =====
-- `ApplyUpgrades`: the trees are sorted by distinct names, and the index finds each of them.
use mathlib.Core.List.{Perm}
use store.Prelude.{
  ℕ, ◌+◌, Option, none, some, List, [], ◌∷◌, ◌≡◌, ◌≢◌, refl, sym, ap, ◌∙◌, arith, All, Bool-cases,
  inl, inr, Option-cases,
}
use store.Bytes.{Bytes}
use store.Memiavl.MultiTree.{
  NamedTree, MultiTree, Outcome, done, failed, panicked, map_outcome, same_name, find_index,
  index_of, sort_by_name, build_index, reindex,
}
use store.Memiavl.MultiTree.Names.{
  Ends, eq_of_same_name, same_name_ne, ne_of_same_name, IsDistinct, IsAscending,
  sort_by_name-IsAscending, sort_by_name-IsDistinct, sort_by_name-perm,
}

-- An index `i` on, or else the index that was there.
abbrev pub index_from : ℕ → Option ℕ → Option ℕ → Option ℕ
index_from i none old = old
index_from i (some k) old = some (i + k)

module _ {S : Type 0} where
  -- No tree has a name of the index.
  abbrev IsUnlisted : List (Bytes × ℕ) → List (NamedTree S) → Type 0
  IsUnlisted index = All (λ x. find_index x.name index ≡ none)

  -- What the loop over `trees` from index `i` on makes of an index.
  record HasBuilt (i : ℕ) (trees : List (NamedTree S)) (index r : List (Bytes × ℕ)) : Type 0 where
    distinct : IsDistinct trees
    unlisted : IsUnlisted index trees
    exact :
        (name : Bytes)
        → find_index name r ≡ index_from i (index_of name trees) (find_index name index)

  record HasClash (trees : List (NamedTree S)) (index : List (Bytes × ℕ)) : Type 0 where
    clash : IsDistinct trees × IsUnlisted index trees → ⊥

  IsUnlisted-cons :
      (n : Bytes) (i : ℕ) (index : List (Bytes × ℕ)) (trees : List (NamedTree S))
      → IsUnlisted ((n, i) ∷ index) trees
      → IsUnlisted index trees × All (λ x. n ≢ x.name) trees
  unfolding find_index
  IsUnlisted-cons n i index [] h = (tt, tt)
  IsUnlisted-cons n i index (x ∷ trees) h =
      let rest = IsUnlisted-cons n i index trees h.1 in
      elim (Bool-cases (same_name n x.name)) [
        | inl e ↦ absurd (some_ne (find_index x.name index) (rw (e, find_index) at h.0))
        | inr e ↦ (((rw (e, find_index) at h.0), rest.0), (ne_of_same_name n x.name e, rest.1))
      ]
    where
      some_ne : (o : Option ℕ) → some i ≡ none → ⊥
      some_ne o p = cc

  cons-IsUnlisted :
      (n : Bytes) (i : ℕ) (index : List (Bytes × ℕ)) (trees : List (NamedTree S))
      → IsUnlisted index trees
      → All (λ x. n ≢ x.name) trees
      → IsUnlisted ((n, i) ∷ index) trees
  unfolding find_index
  cons-IsUnlisted n i index [] h d = tt
  cons-IsUnlisted n i index (x ∷ trees) h d =
      (rw (same_name_ne n x.name d.0) h.0, cons-IsUnlisted n i index trees h.1 d.1)

  index_of-absent :
      (name : Bytes) (trees : List (NamedTree S))
      → All (λ x. name ≢ x.name) trees
      → index_of name trees ≡ none
  unfolding index_of
  index_of-absent name [] h = refl
  index_of-absent name (x ∷ trees) h =
      rw (same_name_ne x.name name (λ e. h.0 (sym e)), index_of-absent name trees h.1) refl

  exact_cons :
      (e : NamedTree S) (i : ℕ) (trees : List (NamedTree S)) (index r : List (Bytes × ℕ))
      (name : Bytes)
      → All (λ x. e.name ≢ x.name) trees
      → find_index name r
        ≡ index_from (i + 1) (index_of name trees) (find_index name ((e.name, i) ∷ index))
      → find_index name r ≡ index_from i (index_of name (e ∷ trees)) (find_index name index)
  unfolding index_of find_index
  exact_cons e i trees index r name d h = elim (Bool-cases (same_name e.name name)) [
    | inl p ↦
        let n : e.name ≡ name = eq_of_same_name e.name name p in
        let none_later : index_of name trees ≡ none = rw (← n) (index_of-absent e.name trees d) in
        rw (p, index_of) (rw (none_later, p) at h ∙ ap some (omega arith))
    | inr p ↦ elim (Option-cases (index_of name trees)) [
      | inl absent ↦ rw (p, absent, index_of) (rw (p, absent) at h)
      | inr (k, there) ↦ rw (p, there, index_of) (rw (p, there) at h ∙ ap some (omega arith))
    ]
  ]

  -- The index is built exactly when the names are distinct and not listed yet.
  build_index_lem :
      (i : ℕ) (trees : List (NamedTree S)) (index : List (Bytes × ℕ))
      → Ends (build_index i trees index) (HasBuilt i trees index) (λ e r. HasClash trees index)
  unfolding build_index
  build_index_lem i [] index = record {
    distinct = tt;
    unlisted = tt;
    exact = λ name. unfold index_of in refl;
  }
  build_index_lem i (e ∷ trees) index = elim (Option-cases (find_index e.name index)) [
    | inl fresh ↦
        rw (fresh, build_index)
          (finish fresh (build_index (i + 1) trees ((e.name, i) ∷ index))
            (build_index_lem (i + 1) trees ((e.name, i) ∷ index)))
    | inr (j, there) ↦ rw (there, build_index) (record { clash = λ h. listed j there h.1.0 })
  ]
    where
      listed : (j : ℕ) → find_index e.name index ≡ some j → find_index e.name index ≡ none → ⊥
      listed j p q = cc

      finish :
          find_index e.name index ≡ none
          → (o : Outcome (List (Bytes × ℕ)))
          → Ends o
              (HasBuilt (i + 1) trees ((e.name, i) ∷ index))
              (λ _ r. HasClash trees ((e.name, i) ∷ index))
          → Ends o (HasBuilt i (e ∷ trees) index) (λ _ r. HasClash (e ∷ trees) index)
      finish fresh (done r) h =
          let (u, d) = IsUnlisted-cons e.name i index trees h.unlisted in
          record {
            distinct = (d, h.distinct);
            unlisted = (fresh, u);
            exact = λ name. exact_cons e i trees index r name d (h.exact name);
          }
      finish fresh (failed x r) h = record {
        clash = λ q. h.clash (q.0.1, cons-IsUnlisted e.name i index trees q.1.1 q.0.0);
      }
      finish fresh panicked h = h

  -- What `ApplyUpgrades` promises of the trees: ascending names, and an index that finds each of them.
  pub record IsIndexed (t : MultiTree S) : Type 0 where
    pub ascending : IsAscending t.trees
    pub exact : (name : Bytes) → find_index name t.trees_by_name ≡ index_of name t.trees

  -- The end of `ApplyUpgrades` on trees `t`.
  pub record HasReindexed (t t' : MultiTree S) : Type 0 where
    pub indexed : IsIndexed t'
    pub sorted : t'.trees ≡ sort_by_name t.trees
    pub perm : Perm t'.trees t.trees
    pub same_info : t'.last_commit_info ≡ t.last_commit_info
    pub same_initial : t'.initial_version ≡ t.initial_version

  -- The same when two names are equal.
  pub record HasConflict (t t' : MultiTree S) : Type 0 where
    pub sorted : t'.trees ≡ sort_by_name t.trees
    pub clash : IsDistinct t.trees → ⊥
    pub same_info : t'.last_commit_info ≡ t.last_commit_info

  exact_all :
      (name : Bytes) (trees : List (NamedTree S)) (o : Option ℕ)
      → o ≡ index_from 0 (index_of name trees) (find_index name [])
      → o ≡ index_of name trees
  unfolding find_index
  exact_all name trees o h = elim (Option-cases (index_of name trees)) [
    | inl e ↦ rw e (rw e at h)
    | inr (k, e) ↦ rw e (rw e at h ∙ ap some (omega arith))
  ]

  pub reindex_lem : (t : MultiTree S) → Ends (reindex t) (HasReindexed t) (λ e. HasConflict t)
  unfolding reindex
  reindex_lem t =
      finish (build_index 0 (sort_by_name t.trees) []) (build_index_lem 0 (sort_by_name t.trees) [])
    where
      unlisted : (trees : List (NamedTree S)) → IsUnlisted [] trees
      unlisted [] = tt
      unlisted (x ∷ trees) = (unfold find_index in refl, unlisted trees)

      finish :
          (o : Outcome (List (Bytes × ℕ)))
          → Ends o
              (HasBuilt 0 (sort_by_name t.trees) [])
              (λ _ r. HasClash (sort_by_name t.trees) [])
          → Ends
              (map_outcome
                (λ index. record t { trees = sort_by_name t.trees; trees_by_name = index })
                o)
              (HasReindexed t)
              (λ _. HasConflict t)
      finish (done r) h = record {
        indexed = record {
          ascending =
              sort_by_name-IsAscending t.trees ((sort_by_name-IsDistinct t.trees).0 h.distinct);
          exact = λ name. exact_all name (sort_by_name t.trees) (find_index name r) (h.exact name);
        };
        sorted = refl;
        perm = sort_by_name-perm t.trees;
        same_info = refl;
        same_initial = refl;
      }
      finish (failed x r) h = record {
        sorted = refl;
        clash =
            λ d. h.clash ((sort_by_name-IsDistinct t.trees).1 d, unlisted (sort_by_name t.trees));
        same_info = refl;
      }
      finish panicked h = h
