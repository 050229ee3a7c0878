-- ===== src/Memiavl/Node/Hash/Fresh.antt =====
-- The hashes that nodes keep are those of their contents: writes drop what they outdate.
use store.Prelude.{Option, none, some, ◌≡◌, refl}
use store.Bytes.{Bytes}
use store.Memiavl.Node.{Node, leaf, branch, height, size}
use store.Memiavl.Node.Leaves.{entries}
use store.Memiavl.Node.Hash.{leaf_bytes, branch_bytes, hash}

module _ (sha256 : Bytes → Bytes) where
  -- The hash of a tree's contents, whatever its nodes keep.
  unfoldable pub content_hash : Node → Bytes
  content_hash (leaf key value version kept) = sha256 (leaf_bytes sha256 key value version)
  content_hash (branch height size version key kept left right) =
      sha256 (branch_bytes sha256 height size version (content_hash left) (content_hash right))

  abbrev pub IsKept : Option Bytes → Bytes → Type 0
  IsKept none bz = Unit
  IsKept (some h) bz = h ≡ bz

  -- Every hash that is kept is the one of the contents.
  abbrev pub IsFresh : Node → Type 0
  IsFresh (leaf key value version kept) = IsKept kept (content_hash (leaf key value version kept))
  IsFresh (branch height size version key kept left right) =
      IsKept kept (content_hash (branch height size version key kept left right))
      × IsFresh left
      × IsFresh right

  -- What `Hash` gives: the hash of the contents, and the same leaves and contents, still fresh.
  pub record HasHashed (t : Node) (r : Bytes × Node) : Type 0 where
    pub value : r.0 ≡ content_hash t
    pub fresh : IsFresh r.1
    pub same_hash : content_hash r.1 ≡ content_hash t
    pub same_entries : entries r.1 ≡ entries t

  -- On a tree in which every kept hash is the one of its node's contents, `Hash` returns the
  -- hash of the contents, though it stops at kept hashes; the hashes that it keeps are again
  -- those of the contents, and leaves and contents are the same.
  pub hash_lem : (t : Node) → IsFresh t → HasHashed t (hash sha256 t)
  unfolding hash content_hash entries
  hash_lem (leaf key value version none) f = record {
    value = refl;
    fresh = refl;
    same_hash = refl;
    same_entries = refl;
  }
  hash_lem (leaf key value version (some h)) f = record {
    value = f;
    fresh = f;
    same_hash = refl;
    same_entries = refl;
  }
  hash_lem (branch h s version key none left right) (f, fl, fr) =
      let l = hash_lem left fl in
      let r = hash_lem right fr in
      record {
        value = rw (l.value, r.value) refl;
        fresh = (rw (l.value, r.value, l.same_hash, r.same_hash) refl, l.fresh, r.fresh);
        same_hash = rw (l.same_hash, r.same_hash) refl;
        same_entries = rw (l.same_entries, r.same_entries) refl;
      }
  hash_lem (branch h s version key (some bz) left right) (f, fl, fr) = record {
    value = f;
    fresh = (f, fl, fr);
    same_hash = refl;
    same_entries = refl;
  }
