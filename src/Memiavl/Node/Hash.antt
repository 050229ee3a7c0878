-- ===== src/Memiavl/Node/Hash.antt =====
-- Hashing in memiavl/node.go and memiavl/mem_node.go: the bytes that a node's hash is taken of, and the
-- hashes that nodes keep. SHA-256 is a parameter. A hash is written into its node when it is computed.
pub mod Fresh
pub mod Balanced
pub mod Writes
pub mod Coded
pub mod Commits
pub mod Shape
use store.Prelude.{ℕ, List, [], ◌∷◌, ◌++◌, Option, none, some, length}
use store.Prelude.Int.{pos}
use store.Bytes.{Bytes}
use store.Binary.{put_uvarint, put_varint}
use store.Memiavl.Node.{Node, leaf, branch}

-- `EncodeBytes`: the length and the bytes.
unfoldable pub encode_bytes : Bytes → Bytes
encode_bytes bz = put_uvarint (length bz) ++ bz

-- The start of `writeHashBytes`: height, size and version.
unfoldable pub hash_head : ℕ → ℕ → ℕ → Bytes
hash_head height size version = put_varint height ++ (put_varint size ++ put_varint version)

-- The bytes of a slice that may be nil.
abbrev pub value_bytes : Option Bytes → Bytes
value_bytes none = []
value_bytes (some bz) = bz

module _ (sha256 : Bytes → Bytes) where
  -- `writeHashBytes` of a leaf, and of a branch given the hashes of its children.
  unfoldable pub leaf_bytes : Bytes → Option Bytes → ℕ → Bytes
  unfolding hash_head encode_bytes
  leaf_bytes key value version =
      hash_head 0 1 version ++ (encode_bytes key ++ encode_bytes (sha256 (value_bytes value)))

  unfoldable pub branch_bytes : ℕ → ℕ → ℕ → Bytes → Bytes → Bytes
  unfolding hash_head encode_bytes
  branch_bytes height size version left right =
      hash_head height size version ++ (encode_bytes left ++ encode_bytes right)

  -- `Hash`: the hash that the node keeps, or the one of its bytes, which it keeps from then on.
  unfoldable pub hash : Node → Bytes × Node
  unfolding leaf_bytes branch_bytes
  hash (leaf key value version (some bz)) = (bz, leaf key value version (some bz))
  hash (leaf key value version none) =
      let bz = sha256 (leaf_bytes key value version) in (bz, leaf key value version (some bz))
  hash (branch height size version key (some bz) left right) =
      (bz, branch height size version key (some bz) left right)
  hash (branch height size version key none left right) =
      let l = hash left in
      let r = hash right in
      let bz = sha256 (branch_bytes height size version l.0 r.0) in
      (bz, branch height size version key (some bz) l.1 r.1)

  -- `HashNode`, which computes the hash though one is kept.
  unfoldable pub hash_node : Node → Bytes × Node
  unfolding hash
  hash_node (leaf key value version kept) =
      (sha256 (leaf_bytes key value version), leaf key value version kept)
  hash_node (branch height size version key kept left right) =
      let l = hash left in
      let r = hash right in
      (
        sha256 (branch_bytes height size version l.0 r.0),
        branch height size version key kept l.1 r.1,
      )
