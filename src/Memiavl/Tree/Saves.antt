-- ===== src/Memiavl/Tree/Saves.antt =====
-- `SaveVersion` of memiavl/tree.go commits the contents that the tree has.
use store.Prelude.{
  ℕ, ◌+◌, ◌%◌, ◌^◌, ◌<◌, Bool, true, false, Option, none, some, [], ltb, ◌≡◌, refl, ap, arith,
  Returns, if◌then◌else◌,
}
use store.Bytes.{Bytes}
use store.Memiavl.Node.{Node}
use store.Memiavl.Node.Hash.Fresh.{content_hash, hash_lem}
use store.Memiavl.Node.Hash.Writes.{IsFreshRoot}
use store.Memiavl.Node.Hash.Shape.{hash-IsValid}
use store.Memiavl.Tree.Writes.{IsValidRoot}
use store.Memiavl.Tree.{Tree, root_hash, save_version, root_entries, tree_entries, max_int64}

module _ (sha256 : Bytes → Bytes) where
  -- The hash that stands for a tree's contents.
  abbrev pub root_content_hash : Option Node → Bytes
  root_content_hash none = sha256 []
  root_content_hash (some t) = content_hash sha256 t

  -- What `RootHash` gives.
  pub record HasRootHash (root : Option Node) (r : Bytes × Option Node) : Type 0 where
    pub value : r.0 ≡ root_content_hash root
    pub fresh : IsFreshRoot sha256 r.1
    pub same : root_entries r.1 ≡ root_entries root
    pub same_hash : root_content_hash r.1 ≡ root_content_hash root
    pub valid : IsValidRoot root → IsValidRoot r.1

  pub root_hash_lem :
      (root : Option Node) → IsFreshRoot sha256 root → HasRootHash root (root_hash sha256 root)
  unfolding root_hash root_entries
  root_hash_lem none f = record {
    value = refl;
    fresh = tt;
    same = refl;
    same_hash = refl;
    valid = λ v. v;
  }
  root_hash_lem (some t) f =
      let h = hash_lem sha256 t f in
      record {
        value = h.value;
        fresh = h.fresh;
        same = h.same_entries;
        same_hash = h.same_hash;
        valid = λ v. (hash-IsValid sha256 t v.0, rw h.same_entries v.1);
      }

  -- The result of `SaveVersion`: hash, version and tree.
  pub record HasSaved {S : Type 0} (t : Tree S) (update_hash : Bool) (r : Option Bytes × ℕ × Tree S)
      : Type 0 where
    pub hashed : r.0 ≡ (if update_hash then some (root_content_hash t.root) else none)
    pub bumped : r.1 ≡ t.version + 1
    pub versioned : r.2.version ≡ t.version + 1
    pub fresh : IsFreshRoot sha256 r.2.root
    pub same : tree_entries r.2 ≡ tree_entries t
    pub same_cache : r.2.cache ≡ t.cache
    pub same_hash : root_content_hash r.2.root ≡ root_content_hash t.root
    pub valid : IsValidRoot t.root → IsValidRoot r.2.root

  -- For any hash function, on a tree with a version below 2 ^ 63 - 1 in which every kept hash
  -- is the one of its node's contents, `SaveVersion` returns the next version and, with the
  -- update, the hash of the root's contents (of nothing when there is no root), else nil; the
  -- tree gets that version, leaves and cache are the same, and its kept hashes are again those
  -- of the contents.
  pub save_version_lem :
      {S : Type 0} (update_hash : Bool) (t : Tree S)
      → IsFreshRoot sha256 t.root
      → t.version < max_int64
      → Returns (save_version sha256 update_hash t) (HasSaved t update_hash)
  unfolding save_version tree_entries
  save_version_lem true t f n =
      let h = root_hash_lem t.root f in
      let wraps : (t.version + 1) % 2 ^ 64 ≡ t.version + 1 = omega arith in
      let fits : ltb max_int64 (t.version + 1) ≡ false = ground arith in
      rw (wraps, fits)
        (record {
          hashed = ap some h.value;
          bumped = refl;
          versioned = refl;
          fresh = h.fresh;
          same = h.same;
          same_cache = refl;
          same_hash = h.same_hash;
          valid = h.valid;
        })
  save_version_lem false t f n =
      let wraps : (t.version + 1) % 2 ^ 64 ≡ t.version + 1 = omega arith in
      let fits : ltb max_int64 (t.version + 1) ≡ false = ground arith in
      rw (wraps, fits)
        (record {
          hashed = refl;
          bumped = refl;
          versioned = refl;
          fresh = f;
          same = refl;
          same_cache = refl;
          same_hash = refl;
          valid = λ v. v;
        })
