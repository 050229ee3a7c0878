-- ===== src/Memiavl/Snapshot/Counts.antt =====
-- The counters of a snapshot's writer after a tree.
use store.Prelude.{◌+◌, ◌^◌, ◌<◌, ◌≤◌, ◌≡◌, arith}
use store.Bytes.{Bytes}
use store.Memiavl.Node.{Node, leaf, branch, size}
use store.Memiavl.Node.Balance.{IsAvl}
use store.Memiavl.Snapshot.{
  SnapshotWriter, write_key_value, write_leaf, write_branch, write_recursive,
}

pub record HasCounted (t : Node) (w w' : SnapshotWriter) : Type 0 where
  pub leaves : w'.leaf_counter ≡ w.leaf_counter + size t
  pub branches : w'.branch_counter + 1 ≡ w.branch_counter + size t

pub size-pos : (t : Node) → IsAvl t → 0 < size t
unfolding size
size-pos (leaf key value version kept) a = omega arith
size-pos (branch h s version key kept left right) a = omega (arith, size-pos left a.4)

module _ (sha256 : Bytes → Bytes) where
  pub write_recursive-HasCounted :
      (t : Node) (w : SnapshotWriter)
      → IsAvl t
      → w.leaf_counter + size t < 2 ^ 32
      → w.branch_counter ≤ w.leaf_counter
      → HasCounted t w (write_recursive sha256 t w)
  unfolding write_recursive write_leaf write_key_value write_branch size
  write_recursive-HasCounted (leaf key value version kept) w a p q = record {
    leaves = omega arith;
    branches = omega arith;
  }
  write_recursive-HasCounted (branch h s version key kept left right) w a p q =
      let w1 = write_recursive sha256 left w in
      let w2 = write_recursive sha256 right w1 in
      let some_left = size-pos left a.4 in
      let some_right = size-pos right a.5 in
      let l = write_recursive-HasCounted left w a.4 (omega (arith, a.1)) q in
      let r =
        write_recursive-HasCounted right w1 a.5 (omega (arith, a.1, l.leaves))
          (omega (arith, l.leaves, l.branches)) in
      record {
        leaves = omega (arith, a.1, l.leaves, r.leaves);
        branches = omega (arith, a.1, p, q, l.leaves, r.leaves, l.branches, r.branches);
      }
