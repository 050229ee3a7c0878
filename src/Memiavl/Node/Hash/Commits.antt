-- ===== src/Memiavl/Node/Hash/Commits.antt =====
-- Two trees to which `Hash` of memiavl/mem_node.go gives the same hash.
use store.Prelude.{ℕ, ◌^◌, ◌<◌, Option, ◌≡◌, ◌≢◌, ◌⊎◌, refl, sym, ◌∙◌, arith, length, inl, inr}
use store.Bytes.{Bytes, compare_bytes}
use store.Bytes.Order.{compare_bytes_refl, eq_of_compare_bytes, Ordering-cases}
use store.Memiavl.Node.{Node, leaf, branch}
use store.Memiavl.Node.Hash.{leaf_bytes, branch_bytes, hash, value_bytes}
use store.Memiavl.Node.Hash.Fresh.{content_hash, IsFresh, hash_lem}
use store.Memiavl.Node.Hash.Coded.{leaf_bytes_inj, branch_bytes_inj, leaf_bytes-branch_bytes}

-- Numbers and keys fit into 64 bits, and a branch is higher than a leaf.
abbrev pub IsCoded : Node → Type 0
IsCoded (leaf key value version kept) = (version < 2 ^ 64) × (length key < 2 ^ 64)
IsCoded (branch height size version key kept left right) =
    (0 < height)
    × (height < 2 ^ 64)
    × (size < 2 ^ 64)
    × (version < 2 ^ 64)
    × IsCoded left
    × IsCoded right

-- The same shape, with the same keys, values and versions in the leaves, and the same heights,
-- sizes and versions in the branches; a nil value is an empty one.
abbrev pub HasSameContents : Node → Node → Type 0
HasSameContents (leaf key value version _) (leaf key' value' version' _) =
    (key ≡ key') × (value_bytes value ≡ value_bytes value') × (version ≡ version')
HasSameContents (branch height size version _ _ left right)
      (branch height' size' version' _ _ left' right') =
    (height ≡ height')
    × (size ≡ size')
    × (version ≡ version')
    × HasSameContents left left'
    × HasSameContents right right'
HasSameContents (leaf _ _ _ _) (branch _ _ _ _ _ _ _) = ⊥
HasSameContents (branch _ _ _ _ _ _ _) (leaf _ _ _ _) = ⊥

Bytes-cases : (a b : Bytes) → (a ≡ b) ⊎ (a ≢ b)
Bytes-cases a b = elim (Ordering-cases (compare_bytes a b)) [
  | inl e ↦ inr (λ p. ground (arith, p, compare_bytes_refl a))
  | inr (inl e) ↦ inl (eq_of_compare_bytes a b e)
  | inr (inr e) ↦ inr (λ p. ground (arith, p, compare_bytes_refl a))
]

module _ (sha256 : Bytes → Bytes) where
  -- A byte string whose hash is taken for the tree: of a leaf, of its value, or of a branch.
  abbrev pub IsHashed : Node → Bytes → Type 0
  IsHashed (leaf key value version _) bz =
      (bz ≡ leaf_bytes sha256 key value version) ⊎ (bz ≡ value_bytes value)
  IsHashed (branch height size version _ _ left right) bz =
      (bz
        ≡ branch_bytes sha256 height size version (content_hash sha256 left)
            (content_hash sha256 right))
      ⊎ (IsHashed left bz ⊎ IsHashed right bz)

  -- A byte string of the one tree and a different one of the other tree with the same hash.
  pub record HasCollision (t t' : Node) : Type 0 where
    pub one : Bytes
    pub other : Bytes
    pub of_one : IsHashed t one
    pub of_other : IsHashed t' other
    pub different : one ≢ other
    pub same_hash : sha256 one ≡ sha256 other

  same_or_collision :
      (t t' : Node) (a b : Bytes)
      → IsHashed t a
      → IsHashed t' b
      → sha256 a ≡ sha256 b
      → (a ≡ b) ⊎ HasCollision t t'
  same_or_collision t t' a b p q e = elim (Bytes-cases a b) [
    | inl same ↦ inl same
    | inr n ↦
        inr (record { one = a; other = b; of_one = p; of_other = q; different = n; same_hash = e })
  ]

  -- What the trees of a collision are parts of collides too.
  collision_within :
      (t t' u u' : Node)
      → ((bz : Bytes) → IsHashed t bz → IsHashed u bz)
      → ((bz : Bytes) → IsHashed t' bz → IsHashed u' bz)
      → HasCollision t t'
      → HasCollision u u'
  collision_within t t' u u' f g r = record {
    one = r.one;
    other = r.other;
    of_one = f r.one r.of_one;
    of_other = g r.other r.of_other;
    different = r.different;
    same_hash = r.same_hash;
  }

  leaves_lem :
      ((bz : Bytes) → length (sha256 bz) ≡ 32)
      → (key key' : Bytes) (value value' : Option Bytes) (version version' : ℕ)
        (kept kept' : Option Bytes)
      → IsCoded (leaf key value version kept)
      → IsCoded (leaf key' value' version' kept')
      → leaf_bytes sha256 key value version ≡ leaf_bytes sha256 key' value' version'
      → HasSameContents (leaf key value version kept) (leaf key' value' version' kept')
        ⊎ HasCollision (leaf key value version kept) (leaf key' value' version' kept')
  leaves_lem short key key' value value' version version' kept kept' p q e =
      let (k, w, v) = leaf_bytes_inj sha256 short key key' value value' version version' p q e in
      elim (same_or_collision (leaf key value version kept) (leaf key' value' version' kept')
        (value_bytes value) (value_bytes value') (inr refl) (inr refl) w) [
          | inl same ↦ inl (k, same, v)
          | inr found ↦ inr found
        ]

  children_lem :
      (h s v h' s' v' : ℕ) (key key' : Bytes) (kept kept' : Option Bytes)
      (left right left' right' : Node)
      → HasSameContents left left' ⊎ HasCollision left left'
      → HasSameContents right right' ⊎ HasCollision right right'
      → (HasSameContents left left' × HasSameContents right right')
        ⊎ HasCollision (branch h s v key kept left right) (branch h' s' v' key' kept' left' right')
  children_lem h s v h' s' v' key key' kept kept' left right left' right' (inl a) (inl b) =
      inl (a, b)
  children_lem h s v h' s' v' key key' kept kept' left right left' right' (inr c) b = inr (
      collision_within left left' (branch h s v key kept left right)
        (branch h' s' v' key' kept' left' right') (λ _ q. inr (inl q)) (λ _ q. inr (inl q)) c)
  children_lem h s v h' s' v' key key' kept kept' left right left' right' (inl a) (inr c) = inr (
      collision_within right right' (branch h s v key kept left right)
        (branch h' s' v' key' kept' left' right') (λ _ q. inr (inr q)) (λ _ q. inr (inr q)) c)

  -- The byte string of the root.
  abbrev root_bytes : Node → Bytes
  root_bytes (leaf key value version _) = leaf_bytes sha256 key value version
  root_bytes (branch height size version _ _ left right) =
      branch_bytes sha256 height size version (content_hash sha256 left) (content_hash sha256 right)

  root_or_collision :
      (t t' : Node)
      → content_hash sha256 t ≡ content_hash sha256 t'
      → (root_bytes t ≡ root_bytes t') ⊎ HasCollision t t'
  unfolding content_hash
  root_or_collision t t' e =
      same_or_collision t t' (root_bytes t) (root_bytes t') (hashed t) (hashed t')
        (sym (of_root t) ∙ (e ∙ of_root t'))
    where
      hashed : (u : Node) → IsHashed u (root_bytes u)
      hashed (leaf _ _ _ _) = inl refl
      hashed (branch _ _ _ _ _ _ _) = inl refl

      of_root : (u : Node) → content_hash sha256 u ≡ sha256 (root_bytes u)
      of_root (leaf _ _ _ _) = refl
      of_root (branch _ _ _ _ _ _ _) = refl

  content_hash-length :
      ((bz : Bytes) → length (sha256 bz) ≡ 32) → (t : Node) → length (content_hash sha256 t) ≡ 32
  unfolding content_hash
  content_hash-length short (leaf key value version kept) =
      short (leaf_bytes sha256 key value version)
  content_hash-length short (branch height size version key kept left right) = short (
      branch_bytes sha256 height size version (content_hash sha256 left)
        (content_hash sha256 right))

  content_hash_lem :
      ((bz : Bytes) → length (sha256 bz) ≡ 32)
      → (t t' : Node) → IsCoded t
      → IsCoded t'
      → content_hash sha256 t ≡ content_hash sha256 t'
      → HasSameContents t t' ⊎ HasCollision t t'
  content_hash_lem short (leaf key value version kept) (leaf key' value' version' kept') p q e =
      elim (root_or_collision (leaf key value version kept) (leaf key' value' version' kept') e) [
        | inl same ↦ leaves_lem short key key' value value' version version' kept kept' p q same
        | inr found ↦ inr found
      ]
  content_hash_lem short (leaf key value version kept) (branch h s v key' kept' left right) p q e =
      elim (root_or_collision (leaf key value version kept) (branch h s v key' kept' left right)
        e) [
          | inl same ↦ absurd (
              leaf_bytes-branch_bytes sha256 key value version h s v (content_hash sha256 left)
                (content_hash sha256 right) p.0 (q.0, q.1, q.2, q.3) same)
          | inr found ↦ inr found
        ]
  content_hash_lem short (branch h s v key' kept' left right) (leaf key value version kept) p q e =
      elim (root_or_collision (branch h s v key' kept' left right) (leaf key value version kept)
        e) [
          | inl same ↦ absurd (
              leaf_bytes-branch_bytes sha256 key value version h s v (content_hash sha256 left)
                (content_hash sha256 right) q.0 (p.0, p.1, p.2, p.3) (sym same))
          | inr found ↦ inr found
        ]
  content_hash_lem short (branch h s v key kept left right)
        (branch h' s' v' key' kept' left' right') (_, hp, sp, vp, lp, rp) (_, hq, sq, vq, lq, rq)
        e =
      elim (root_or_collision (branch h s v key kept left right)
        (branch h' s' v' key' kept' left' right') e) [
          | inl same ↦
              let (h_same, s_same, v_same, l, r) =
                branch_bytes_inj sha256 h s v h' s' v' (content_hash sha256 left)
                  (content_hash sha256 right) (content_hash sha256 left')
                  (content_hash sha256 right') (hp, sp, vp) (hq, sq, vq)
                  (content_hash-length short left) (content_hash-length short right)
                  (content_hash-length short left') (content_hash-length short right') same in
              elim (children_lem h s v h' s' v' key key' kept kept' left right left' right'
                (content_hash_lem short left left' lp lq l)
                (content_hash_lem short right right' rp rq r)) [
                  | inl (a, b) ↦ inl (h_same, s_same, v_same, a, b)
                  | inr found ↦ inr found
                ]
          | inr found ↦ inr found
        ]

  -- With a hash function of 32 bytes, for two trees with keys shorter than 2 ^ 64, with
  -- heights, sizes and versions of 64 bits, with branches of positive heights, and in which
  -- every kept hash is the one of its node's contents: when `Hash` gives the same for both,
  -- either they have the same shape, with the same keys, values (nil and empty being the same)
  -- and versions in the leaves and the same heights, sizes and versions in the branches; or a
  -- byte string that is hashed for the one tree, of a leaf, of its value or of a branch, and a
  -- different one that is hashed for the other tree have the same hash.
  pub hash-HasSameContents :
      ((bz : Bytes) → length (sha256 bz) ≡ 32)
      → (t t' : Node) → IsCoded t
      → IsCoded t'
      → IsFresh sha256 t
      → IsFresh sha256 t'
      → (hash sha256 t).0 ≡ (hash sha256 t').0
      → HasSameContents t t' ⊎ HasCollision t t'
  hash-HasSameContents short t t' p q f g e =
      content_hash_lem short t t' p q
        (sym (hash_lem sha256 t f).value ∙ (e ∙ (hash_lem sha256 t' g).value))
