-- ===== src/Memiavl/Node/Hash/Coded.antt =====
-- The bytes that `writeHashBytes` of memiavl/node.go writes, read back from a node's hash input.
use store.Prelude.{
  ℕ, ◌*◌, ◌-◌, ◌%◌, ◌^◌, ◌<◌, [], ◌++◌, append_assoc, ◌≡◌, ◌≢◌, sym, ap, ap₂, ◌∙◌, arith, length,
  Option, ltb, if◌then◌else◌,
}
use store.Bytes.{Bytes}
use store.Binary.{Result, ok, read_uvarint, read_full, put_uvarint, put_varint}
use store.Binary.RoundTrip.{read_uvarint-put_uvarint, read_full-append}
use store.Memiavl.Node.Hash.{encode_bytes, hash_head, leaf_bytes, branch_bytes, value_bytes}

ok_inj :
    {A B : Type 0} (a a' : A) (b b' : B)
    → ◌≡◌ {A = Result (A × B)} (ok (a, b)) (ok (a', b'))
    → (a ≡ a') × (b ≡ b')
ok_inj a a' b b' e = (cc, cc)

put_uvarint_inj :
    (v w : ℕ) (x y : Bytes)
    → v < 2 ^ 64
    → w < 2 ^ 64
    → put_uvarint v ++ x ≡ put_uvarint w ++ y
    → (v ≡ w) × (x ≡ y)
put_uvarint_inj v w x y p q e =
    ok_inj v w x y
      (sym (read_uvarint-put_uvarint v x p) ∙ (ap read_uvarint e ∙ read_uvarint-put_uvarint w y q))

-- The number that `binary.PutVarint` writes for the bits of an int64.
abbrev zigzag : ℕ → ℕ
zigzag x = let ux = 2 * x % 2 ^ 64 in if ltb x (2 ^ 63) then ux else 2 ^ 64 - 1 - ux

zigzag-lt : (v : ℕ) → v < 2 ^ 64 → zigzag v < 2 ^ 64
zigzag-lt v p = ground arith

zigzag_inj : (v w : ℕ) → v < 2 ^ 64 → w < 2 ^ 64 → zigzag v ≡ zigzag w → v ≡ w
zigzag_inj v w p q e = ground arith

put_varint_inj :
    (v w : ℕ) (x y : Bytes)
    → v < 2 ^ 64
    → w < 2 ^ 64
    → put_varint v ++ x ≡ put_varint w ++ y
    → (v ≡ w) × (x ≡ y)
unfolding put_varint
put_varint_inj v w x y p q e =
    let r = put_uvarint_inj (zigzag v) (zigzag w) x y (zigzag-lt v p) (zigzag-lt w q) e in
    (zigzag_inj v w p q r.0, r.1)

encode_bytes_inj :
    (a b x y : Bytes)
    → length a < 2 ^ 64
    → length b < 2 ^ 64
    → encode_bytes a ++ x ≡ encode_bytes b ++ y
    → (a ≡ b) × (x ≡ y)
unfolding encode_bytes
encode_bytes_inj a b x y p q e =
    let r = put_uvarint_inj (length a) (length b) (a ++ x) (b ++ y) p q (
      sym (append_assoc (put_uvarint (length a)) a x)
      ∙ (e ∙ append_assoc (put_uvarint (length b)) b y)) in
    ok_inj a b x y (sym (read_full-append a x) ∙ (ap₂ read_full r.0 r.1 ∙ read_full-append b y))

last_inj : (a b : Bytes) → length a ≡ 32 → length b ≡ 32 → encode_bytes a ≡ encode_bytes b → a ≡ b
last_inj a b p q e =
    (encode_bytes_inj a b [] [] (omega arith) (omega arith) (ap (λ (z : Bytes). z ++ []) e)).0

split_head :
    (h s v : ℕ) (x : Bytes)
    → hash_head h s v ++ x ≡ put_varint h ++ (put_varint s ++ (put_varint v ++ x))
unfolding hash_head
split_head h s v x =
    append_assoc (put_varint h) (put_varint s ++ put_varint v) x
    ∙ ap (λ (z : Bytes). put_varint h ++ z) (append_assoc (put_varint s) (put_varint v) x)

hash_head_inj :
    (h s v h' s' v' : ℕ) (x y : Bytes)
    → (h < 2 ^ 64) × (s < 2 ^ 64) × (v < 2 ^ 64)
    → (h' < 2 ^ 64) × (s' < 2 ^ 64) × (v' < 2 ^ 64)
    → hash_head h s v ++ x ≡ hash_head h' s' v' ++ y
    → (h ≡ h') × (s ≡ s') × (v ≡ v') × (x ≡ y)
unfolding hash_head
hash_head_inj h s v h' s' v' x y (hp, sp, vp) (hq, sq, vq) e =
    let a =
      put_varint_inj h h' (put_varint s ++ (put_varint v ++ x))
        (put_varint s' ++ (put_varint v' ++ y)) hp hq
        (sym (split_head h s v x) ∙ (e ∙ split_head h' s' v' y)) in
    let b = put_varint_inj s s' (put_varint v ++ x) (put_varint v' ++ y) sp sq a.1 in
    let c = put_varint_inj v v' x y vp vq b.1 in (a.0, b.0, c.0, c.1)

module _ (sha256 : Bytes → Bytes) where
  pub leaf_bytes_inj :
      ((bz : Bytes) → length (sha256 bz) ≡ 32)
      → (key key' : Bytes) (value value' : Option Bytes) (version version' : ℕ)
      → (version < 2 ^ 64) × (length key < 2 ^ 64)
      → (version' < 2 ^ 64) × (length key' < 2 ^ 64)
      → leaf_bytes sha256 key value version ≡ leaf_bytes sha256 key' value' version'
      → (key ≡ key')
        × (sha256 (value_bytes value) ≡ sha256 (value_bytes value'))
        × (version ≡ version')
  unfolding leaf_bytes
  leaf_bytes_inj short key key' value value' version version' (vp, kp) (vq, kq) e =
      let (_, _, v, rest) =
        hash_head_inj 0 1 version 0 1 version'
          (encode_bytes key ++ encode_bytes (sha256 (value_bytes value)))
          (encode_bytes key' ++ encode_bytes (sha256 (value_bytes value')))
          (omega arith, omega arith, vp) (omega arith, omega arith, vq) e in
      let (k, w) =
        encode_bytes_inj key key' (encode_bytes (sha256 (value_bytes value)))
          (encode_bytes (sha256 (value_bytes value'))) kp kq rest in
      (
        k,
        last_inj (sha256 (value_bytes value)) (sha256 (value_bytes value'))
            (short (value_bytes value)) (short (value_bytes value')) w,
        v,
      )

  pub branch_bytes_inj :
      (h s v h' s' v' : ℕ) (l r l' r' : Bytes)
      → (h < 2 ^ 64) × (s < 2 ^ 64) × (v < 2 ^ 64)
      → (h' < 2 ^ 64) × (s' < 2 ^ 64) × (v' < 2 ^ 64)
      → length l ≡ 32
      → length r ≡ 32
      → length l' ≡ 32
      → length r' ≡ 32
      → branch_bytes sha256 h s v l r ≡ branch_bytes sha256 h' s' v' l' r'
      → (h ≡ h') × (s ≡ s') × (v ≡ v') × (l ≡ l') × (r ≡ r')
  unfolding branch_bytes
  branch_bytes_inj h s v h' s' v' l r l' r' p q lp rp lq rq e =
      let (a, b, c, rest) =
        hash_head_inj h s v h' s' v' (encode_bytes l ++ encode_bytes r)
          (encode_bytes l' ++ encode_bytes r') p q e in
      let (d, w) =
        encode_bytes_inj l l' (encode_bytes r) (encode_bytes r') (omega arith) (omega arith) rest in
      (a, b, c, d, last_inj r r' rp rq w)

  -- A leaf has height 0, and a branch a positive one.
  pub leaf_bytes-branch_bytes :
      (key : Bytes) (value : Option Bytes) (version h s v : ℕ) (l r : Bytes)
      → version < 2 ^ 64
      → (0 < h) × (h < 2 ^ 64) × (s < 2 ^ 64) × (v < 2 ^ 64)
      → leaf_bytes sha256 key value version ≢ branch_bytes sha256 h s v l r
  unfolding leaf_bytes branch_bytes
  leaf_bytes-branch_bytes key value version h s v l r p (positive, hp, sp, vp) e =
      let (a, _, _, _) =
        hash_head_inj 0 1 version h s v
          (encode_bytes key ++ encode_bytes (sha256 (value_bytes value)))
          (encode_bytes l ++ encode_bytes r) (omega arith, omega arith, p) (hp, sp, vp) e in
      absurd (omega arith)
