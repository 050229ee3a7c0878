-- ===== src/Memiavl/Snapshot/Layout.antt =====
-- What a snapshot's writer appends for a tree, and that its reads find each leaf.
pub mod Run
use store.Prelude.{
  ℕ, zero, suc, ◌+◌, ◌-◌, ◌%◌, ◌^◌, ◌<◌, ◌≤◌, Option, none, some, List, [], ◌∷◌, ◌++◌, append_assoc,
  append-nil, ap₂, length, length-append, get_elem?, ◌≡◌, refl, sym, ap, subst, ◌∙◌, arith,
}
use store.Bytes.{Bytes}
use store.Memiavl.Node.{Node, leaf, branch, size}
use store.Memiavl.Node.Balance.{IsAvl}
use store.Memiavl.Node.Leaves.{min_key, IsKeyed}
use store.Memiavl.Node.Hash.{hash}
use store.Memiavl.Snapshot.{
  LeafLayout, NodeLayout, SnapshotWriter, put_uint32, slice, write_key_value, write_leaf,
  write_branch, write_recursive,
}
use store.Memiavl.Snapshot.Counts.{HasCounted, size-pos, write_recursive-HasCounted}
use store.Memiavl.Snapshot.Scan.{key_value_at, leaf_key, leaf_key_value}
use store.Memiavl.Snapshot.Scan.Slices.{
  kv_bytes, key_value_at_lem, leaf_key_lem, leaf_key_value_lem,
}

-- Leaves have values, with keys and values of less than 2 ^ 32 bytes.
abbrev pub HasValues : Node → Type 0
HasValues (leaf key none version kept) = ⊥
HasValues (leaf key (some value) version kept) = (length key < 2 ^ 32) × (length value < 2 ^ 32)
HasValues (branch h s version key kept left right) = HasValues left × HasValues right

unfoldable pub kvs_of : Node → Bytes
kvs_of (leaf key value version kept) = kv_bytes key (slice value)
kvs_of (branch h s version key kept left right) = kvs_of left ++ kvs_of right

length-put_uint32 : (n : ℕ) → length (put_uint32 n) ≡ 4
unfolding put_uint32
length-put_uint32 n = refl

length-kv_bytes : (key value : Bytes) → length (kv_bytes key value) ≡ 8 + length key + length value
unfolding kv_bytes
length-kv_bytes key value = omega (
  arith,
  length-append (put_uint32 (length key)) (key ++ (put_uint32 (length value) ++ value)),
  length-append key (put_uint32 (length value) ++ value),
  length-append (put_uint32 (length value)) value,
  length-put_uint32 (length key),
  length-put_uint32 (length value),
)

module _ (sha256 : Bytes → Bytes) where
  abbrev pub leaf_layout : Bytes → ℕ → Option Bytes → Option Bytes → ℕ → LeafLayout
  leaf_layout key version value kept offset = record {
    version = version;
    key_length = length key;
    key_offset = offset;
    hash = (hash sha256 (leaf key value version kept)).0;
  }

  abbrev pub node_layout : ℕ → ℕ → ℕ → Bytes → Option Bytes → Node → Node → ℕ → ℕ → NodeLayout
  node_layout h s version key kept left right pre_trees key_leaf = record {
    height = h;
    pre_trees = pre_trees;
    version = version;
    size = s % 2 ^ 32;
    key_leaf = key_leaf;
    hash = (hash sha256 (branch h s version key kept left right)).0;
  }

  -- The records of leaves from an offset on, and those of branches from a count of leaves, with the trees
  -- that are pending.
  unfoldable pub leaves_of : Node → ℕ → List LeafLayout
  leaves_of (leaf key value version kept) offset = leaf_layout key version value kept offset ∷ []
  leaves_of (branch h s version key kept left right) offset =
      leaves_of left offset ++ leaves_of right (offset + length (kvs_of left))

  unfoldable pub nodes_of : Node → ℕ → ℕ → List NodeLayout
  nodes_of (leaf key value version kept) count pending = []
  nodes_of (branch h s version key kept left right) count pending =
      nodes_of left count pending
      ++ (nodes_of right (count + size left) (pending + 1)
          ++ (node_layout h s version key kept left right (pending % 256) (count + size left) ∷ []))

  pub record HasAppended (t : Node) (w w' : SnapshotWriter) : Type 0 where
    pub nodes : w'.nodes ≡ w.nodes ++ nodes_of t w.leaf_counter (w.leaf_counter - w.branch_counter)
    pub leaves : w'.leaves ≡ w.leaves ++ leaves_of t w.kvs_offset
    pub kvs : w'.kvs ≡ w.kvs ++ kvs_of t
    pub offset : w'.kvs_offset ≡ w.kvs_offset + length (kvs_of t)

  pub write_recursive-HasAppended :
      (t : Node) (w : SnapshotWriter)
      → IsAvl t
      → HasValues t
      → w.leaf_counter + size t < 2 ^ 32
      → w.branch_counter ≤ w.leaf_counter
      → w.kvs_offset + length (kvs_of t) < 2 ^ 64
      → HasAppended t w (write_recursive sha256 t w)
  unfolding write_recursive write_leaf write_key_value write_branch nodes_of leaves_of kvs_of size
  write_recursive-HasAppended (leaf key none version kept) w a v p q b = absurd v
  write_recursive-HasAppended (leaf key (some value) version kept) w a v p q b =
      let short : length key % 2 ^ 32 ≡ length key = omega (arith, v.0) in
      record {
        nodes = sym (append-nil w.nodes);
        leaves = rw short refl;
        kvs = unfold kv_bytes in refl;
        offset = omega (arith, length-kv_bytes key value);
      }
  write_recursive-HasAppended (branch h s version key kept left right) w a v p q b =
      let w1 = write_recursive sha256 left w in
      let w2 = write_recursive sha256 right w1 in
      let some_left = size-pos left a.4 in
      let some_right = size-pos right a.5 in
      let total = length-append (kvs_of left) (kvs_of right) in
      let l = write_recursive-HasCounted sha256 left w a.4 (omega (arith, a.1)) q in
      let x = write_recursive-HasAppended left w a.4 v.0 (omega (arith, a.1)) q (omega arith) in
      let y =
        write_recursive-HasAppended right w1 a.5 v.1 (omega (arith, a.1, l.leaves))
          (omega (arith, l.leaves, l.branches)) (omega (arith, x.offset)) in
      let pre : (w.leaf_counter + (2 ^ 32 - w.branch_counter)) % 2 ^ 32 % 256
          ≡ (w.leaf_counter - w.branch_counter) % 256 =
        omega (arith, p) in
      let more : w1.leaf_counter - w1.branch_counter ≡ (w.leaf_counter - w.branch_counter) + 1 =
        omega (arith, l.leaves, l.branches) in
      let node = node_layout h s version key kept left right in
      let last = node ((w.leaf_counter - w.branch_counter) % 256) (w.leaf_counter + size left) in
      let before = nodes_of left w.leaf_counter (w.leaf_counter - w.branch_counter) in
      let after =
        nodes_of right (w.leaf_counter + size left) (w.leaf_counter - w.branch_counter + 1) in
      let second : w2.nodes ≡ (w.nodes ++ before) ++ after =
        y.nodes ∙ ap₂ (◌++◌) x.nodes (ap₂ (nodes_of right) l.leaves more) in
      record {
        nodes =
            ap₂ (λ p k. w2.nodes ++ (node p k ∷ [])) pre l.leaves
            ∙ ap (λ z. z ++ (last ∷ [])) second
            ∙ append_assoc (w.nodes ++ before) after (last ∷ [])
            ∙ append_assoc w.nodes before (after ++ (last ∷ []));
        leaves =
            y.leaves
            ∙ ap₂ (◌++◌) x.leaves (ap (leaves_of right) x.offset)
            ∙ append_assoc w.leaves (leaves_of left w.kvs_offset)
                (leaves_of right (w.kvs_offset + length (kvs_of left)));
        kvs =
            y.kvs
            ∙ ap (λ z. z ++ kvs_of right) x.kvs
            ∙ append_assoc w.kvs (kvs_of left) (kvs_of right);
        offset = omega (arith, y.offset, x.offset, total);
      }

  -- The reads that an export makes for the leaves of a tree, whose first has index `count` in all.
  abbrev pub Located : List LeafLayout → Bytes → Node → ℕ → ℕ → Type 0
  Located all kvs (leaf key value version kept) count offset =
      (get_elem? all count ≡ some (leaf_layout key version value kept offset))
      × (key_value_at offset kvs ≡ some (key, slice value))
      × (leaf_key (leaf_layout key version value kept offset) kvs ≡ some key)
  Located all kvs (branch h s version key kept left right) count offset =
      Located all kvs left count offset
      × Located all kvs right (count + size left) (offset + length (kvs_of left))

  pub length-leaves_of : (t : Node) (offset : ℕ) → IsAvl t → length (leaves_of t offset) ≡ size t
  unfolding leaves_of size
  length-leaves_of (leaf key value version kept) offset a = refl
  length-leaves_of (branch h s version key kept left right) offset a = omega (
    arith,
    length-append (leaves_of left offset) (leaves_of right (offset + length (kvs_of left))),
    length-leaves_of left offset a.4,
    length-leaves_of right (offset + length (kvs_of left)) a.5,
    a.1,
  )

  found :
      (front : List LeafLayout) (l : LeafLayout) (rest : List LeafLayout)
      → get_elem? (front ++ (l ∷ rest)) (length front) ≡ some l
  found [] l rest = refl
  found (x ∷ front) l rest = found front l rest

  pub moved :
      {all all' : List LeafLayout} {kvs kvs' : Bytes} (t : Node) (count offset : ℕ)
      → all ≡ all'
      → kvs ≡ kvs'
      → Located all kvs t count offset
      → Located all' kvs' t count offset
  moved {all} {all'} {kvs} {kvs'} t count offset p q h =
      subst (λ x. Located x kvs' t count offset) p (subst (λ x. Located all x t count offset) q h)

  pub located :
      (t : Node) (count offset : ℕ) (front rest : List LeafLayout) (bz more : Bytes)
      → IsAvl t
      → HasValues t
      → count ≡ length front
      → offset ≡ length bz
      → Located (front ++ (leaves_of t offset ++ rest)) (bz ++ (kvs_of t ++ more)) t count offset
  unfolding leaves_of kvs_of
  located (leaf key none version kept) count offset front rest bz more a v e f = absurd v
  located (leaf key (some value) version kept) count offset front rest bz more a v e f = (
    rw e (found front (leaf_layout key version (some value) kept offset) rest),
    key_value_at_lem offset key value bz more f v.0 v.1,
    leaf_key_lem offset key value bz more f v.0 v.1 version
        (hash sha256 (leaf key (some value) version kept)).0,
  )
  located (branch h s version key kept left right) count offset front rest bz more a v e f =
      let lefts = leaves_of left offset in
      let rights = leaves_of right (offset + length (kvs_of left)) in
      let x =
        located left count offset front (rights ++ rest) bz (kvs_of right ++ more) a.4 v.0 e f in
      let y =
        located right (count + size left) (offset + length (kvs_of left)) (front ++ lefts) rest
          (bz ++ kvs_of left) more a.5 v.1
          (omega (arith, length-append front lefts, length-leaves_of left offset a.4))
          (omega (arith, length-append bz (kvs_of left))) in
      let b : Node = branch h s version key kept left right in
      let all = front ++ (lefts ++ (rights ++ rest)) in
      let kvs = bz ++ (kvs_of left ++ (kvs_of right ++ more)) in
      let z =
        moved right (count + size left) (offset + length (kvs_of left))
          (append_assoc front lefts (rights ++ rest))
          (append_assoc bz (kvs_of left) (kvs_of right ++ more)) y in
      moved b count offset (ap (λ z. front ++ z) (sym (append_assoc lefts rights rest)))
        (ap (λ z. bz ++ z) (sym (append_assoc (kvs_of left) (kvs_of right) more))) (x, z)
