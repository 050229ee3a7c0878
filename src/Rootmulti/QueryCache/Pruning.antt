-- ===== src/Rootmulti/QueryCache/Pruning.antt =====
-- The loop of `pruneHistoricalTrees` keeps the newest versions with their trees.
use mathlib.Core.Bool.{false≢true}
use store.Prelude.{
  ℕ, ◌≤◌, ◌<◌, true, List, [], ◌∷◌, ◌++◌, none, ◌≡◌, refl, sym, ap, ◌∙◌, arith, ltb, ◌==◌, length,
  if◌then◌else◌, Bool-cases, Option-cases, inl, inr, Returns, Returns_imp, ltb→lt, ==_iff,
}
use store.Rootmulti.QueryCache.{last_of, find_entry, delete_entry, prune_loop}
use store.Rootmulti.QueryCache.Order.{IsAscending}
use store.Rootmulti.QueryCache.Versions.{elem, has_tree, last_of-cons, elem_absent}

module _ {M : Type 0} where
  find_entry-delete_entry :
      (w v : ℕ) (entries : List (ℕ × M))
      → find_entry w (delete_entry v entries) ≡ (if v == w then none else find_entry w entries)
  unfolding find_entry delete_entry
  find_entry-delete_entry w v [] = ground arith
  find_entry-delete_entry w v ((u, tree) ∷ entries) =
      ground (arith, find_entry-delete_entry w v entries)

  -- Exactly the versions that are listed have their trees.
  pub record IsMatching (seq : List ℕ) (entries : List (ℕ × M)) : Type 0 where
    pub same : (w : ℕ) → has_tree (find_entry w entries) ≡ elem w seq

  -- What pruning makes of a list of versions and their trees.
  pub record IsPruned (limit : ℕ) (seq : List ℕ) (entries : List (ℕ × M))
      (r : List ℕ × List (ℕ × M) × List M) : Type 0 where
    pub ascending : IsAscending r.0
    pub matching : IsMatching r.0 r.1
    pub bounded : length r.0 ≤ limit
    pub newest : last_of r.0 ≡ last_of seq
    pub kept : (w : ℕ) → elem w r.0 ≡ true → find_entry w r.1 ≡ find_entry w entries

  IsMatching-rest :
      (v : ℕ) (seq : List ℕ) (entries : List (ℕ × M))
      → IsAscending (v ∷ seq)
      → IsMatching (v ∷ seq) entries
      → IsMatching seq (delete_entry v entries)
  unfolding elem
  IsMatching-rest v seq entries s h = record {
    same = λ w. rw (find_entry-delete_entry w v entries) (elim (Bool-cases (v == w)) [
      | inl e ↦ rw e (sym (ap (λ x. elem x seq) (sym ((==_iff v w).0 e)) ∙ elem_absent v seq s.0))
      | inr e ↦ rw e (h.same w ∙ rw e refl)
    ]);
  }

  missing_tree :
      (v : ℕ) (seq : List ℕ) (entries : List (ℕ × M))
      → IsMatching (v ∷ seq) entries
      → find_entry v entries ≡ none
      → ⊥
  unfolding elem
  missing_tree v seq entries h e = ground (arith, h.same v)

  undeleted :
      (w v : ℕ) (entries : List (ℕ × M))
      → has_tree (find_entry w (delete_entry v entries)) ≡ true
      → find_entry w (delete_entry v entries) ≡ find_entry w entries
  undeleted w v entries h =
      let e = find_entry-delete_entry w v entries in
      elim (Bool-cases (v == w)) [
        | inl same ↦ absurd (false≢true (sym (ap has_tree (rw same at e)) ∙ h))
        | inr other ↦ rw other at e
      ]

  IsPruned-more :
      (limit v : ℕ) (seq : List ℕ) (entries : List (ℕ × M))
      → IsAscending (v ∷ seq)
      → 1 ≤ limit
      → limit < length (v ∷ seq)
      → (r : List ℕ × List (ℕ × M) × List M) → IsPruned limit seq (delete_entry v entries) r
      → IsPruned limit (v ∷ seq) entries r
  IsPruned-more limit v seq entries s p q r h = record {
    ascending = h.ascending;
    matching = h.matching;
    bounded = h.bounded;
    newest = h.newest ∙ sym (last_of-cons v seq (omega arith));
    kept = λ w e.
        let there : has_tree (find_entry w (delete_entry v entries)) ≡ true =
          ap has_tree (sym (h.kept w e)) ∙ h.matching.same w ∙ e in
        h.kept w e ∙ undeleted w v entries there;
  }

  pub prune_loop_lem :
      (limit : ℕ) (seq : List ℕ) (entries : List (ℕ × M)) (closed : List M)
      → 1 ≤ limit
      → IsAscending seq
      → IsMatching seq entries
      → Returns (prune_loop limit seq entries closed) (IsPruned limit seq entries)
  unfolding prune_loop
  prune_loop_lem limit [] entries closed p s h = record {
    ascending = s;
    matching = h;
    bounded = omega arith;
    newest = refl;
    kept = λ w e. refl;
  }
  prune_loop_lem limit (v ∷ seq) entries closed p s h =
      elim (Bool-cases (ltb limit (length (v ∷ seq)))) [
        | inl long ↦ elim (Option-cases (find_entry v entries)) [
          | inl missing ↦ absurd (missing_tree v seq entries h missing)
          | inr (tree, found) ↦
              rw (long, found, prune_loop)
                (Returns_imp _ (IsPruned limit (v ∷ seq) entries) _
                  (IsPruned-more limit v seq entries s p (ltb→lt limit (length (v ∷ seq)) long))
                  (prune_loop_lem limit seq (delete_entry v entries) (closed ++ (tree ∷ [])) p s.1
                    (IsMatching-rest v seq entries s h)))
        ]
        | inr short ↦ rw short (record {
          ascending = s;
          matching = h;
          bounded = ground arith;
          newest = refl;
          kept = λ w e. refl;
        })
      ]
