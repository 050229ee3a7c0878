-- ===== src/Memiavl/MultiTree/Same.antt =====
-- Trees that differ in their versions and in the hashes that they keep only, as a commit leaves them.
use store.Prelude.{ℕ, List, [], ◌∷◌, ◌≡◌, refl, ◌∙◌, All}
use store.Bytes.{Bytes}
use store.Bytes.Order.{◌≺◌}
use store.Memiavl.Tree.{tree_entries}
use store.Memiavl.Tree.Saves.{root_content_hash}
use store.Memiavl.MultiTree.{NamedTree, StoreInfo, index_of}
use store.Memiavl.MultiTree.Names.{IsAscending}
use store.Memiavl.MultiTree.Changes.Views.{table_of}

module _ {S : Type 0} (sha256 : Bytes → Bytes) where
  -- The commit info that a tree is to have at a version.
  unfoldable pub infos_at : ℕ → List (NamedTree S) → List StoreInfo
  infos_at version [] = []
  infos_at version (e ∷ trees) =
      record { name = e.name; version = version; hash = root_content_hash sha256 e.tree.root }
      ∷ infos_at version trees

  -- The same trees, but for what they keep of hashes and for their versions.
  pub record IsSameTree (e e' : NamedTree S) : Type 0 where
    pub same_name : e'.name ≡ e.name
    pub same_entries : tree_entries e'.tree ≡ tree_entries e.tree
    pub same_hash : root_content_hash sha256 e'.tree.root ≡ root_content_hash sha256 e.tree.root

  abbrev pub AreSame : List (NamedTree S) → List (NamedTree S) → Type 0
  AreSame [] [] = Unit
  AreSame [] (e' ∷ trees') = ⊥
  AreSame (e ∷ trees) [] = ⊥
  AreSame (e ∷ trees) (e' ∷ trees') = IsSameTree e e' × AreSame trees trees'

  pub AreSame-refl : (trees : List (NamedTree S)) → AreSame trees trees
  AreSame-refl [] = tt
  AreSame-refl (e ∷ trees) =
      (record { same_name = refl; same_entries = refl; same_hash = refl }, AreSame-refl trees)

  pub AreSame-trans : (x y z : List (NamedTree S)) → AreSame x y → AreSame y z → AreSame x z
  AreSame-trans [] [] z p q = q
  AreSame-trans [] (b ∷ y) z p q = absurd p
  AreSame-trans (a ∷ x) [] z p q = absurd p
  AreSame-trans (a ∷ x) (b ∷ y) [] p q = absurd q
  AreSame-trans (a ∷ x) (b ∷ y) (d ∷ z) (p, ps) (q, qs) = (
    record {
      same_name = q.same_name ∙ p.same_name;
      same_entries = q.same_entries ∙ p.same_entries;
      same_hash = q.same_hash ∙ p.same_hash;
    },
    AreSame-trans x y z ps qs,
  )

  pub AreSame-table_of : (x y : List (NamedTree S)) → AreSame x y → table_of y ≡ table_of x
  unfolding table_of
  AreSame-table_of [] [] p = refl
  AreSame-table_of [] (b ∷ y) p = absurd p
  AreSame-table_of (a ∷ x) [] p = absurd p
  AreSame-table_of (a ∷ x) (b ∷ y) (p, ps) =
      rw (p.same_name, p.same_entries, AreSame-table_of x y ps) refl

  pub AreSame-infos_at :
      (v : ℕ) (x y : List (NamedTree S)) → AreSame x y → infos_at v y ≡ infos_at v x
  unfolding infos_at
  AreSame-infos_at v [] [] p = refl
  AreSame-infos_at v [] (b ∷ y) p = absurd p
  AreSame-infos_at v (a ∷ x) [] p = absurd p
  AreSame-infos_at v (a ∷ x) (b ∷ y) (p, ps) =
      rw (p.same_name, p.same_hash, AreSame-infos_at v x y ps) refl

  pub AreSame-index_of :
      (name : Bytes) (x y : List (NamedTree S)) → AreSame x y → index_of name y ≡ index_of name x
  unfolding index_of
  AreSame-index_of name [] [] p = refl
  AreSame-index_of name [] (b ∷ y) p = absurd p
  AreSame-index_of name (a ∷ x) [] p = absurd p
  AreSame-index_of name (a ∷ x) (b ∷ y) (p, ps) =
      rw (p.same_name, AreSame-index_of name x y ps) refl

  AreSame-All :
      (P : Bytes → Type 0) (x y : List (NamedTree S))
      → AreSame x y
      → All (λ e. P e.name) x
      → All (λ e. P e.name) y
  AreSame-All P [] [] p h = tt
  AreSame-All P [] (b ∷ y) p h = absurd p
  AreSame-All P (a ∷ x) [] p h = tt
  AreSame-All P (a ∷ x) (b ∷ y) (p, ps) h = (rw p.same_name h.0, AreSame-All P x y ps h.1)

  pub AreSame-IsAscending : (x y : List (NamedTree S)) → AreSame x y → IsAscending x → IsAscending y
  AreSame-IsAscending [] [] p h = tt
  AreSame-IsAscending [] (b ∷ y) p h = absurd p
  AreSame-IsAscending (a ∷ x) [] p h = tt
  AreSame-IsAscending (a ∷ x) (b ∷ y) (p, ps) h =
      (rw p.same_name (AreSame-All (λ n. a.name ≺ n) x y ps h.0), AreSame-IsAscending x y ps h.1)
