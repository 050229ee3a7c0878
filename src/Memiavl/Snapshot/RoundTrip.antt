-- ===== src/Memiavl/Snapshot/RoundTrip.antt =====
-- The sequential export of a written snapshot is the export of the tree.
use store.Prelude.{
  ℕ, ◌+◌, ◌^◌, ◌<◌, ◌≤◌, ltb, true, Option, none, some, List, [], ◌∷◌, ◌++◌, append-nil, map,
  length, ◌≡◌, refl, sym, ap, ap₂, ◌∙◌, arith,
}
use store.Bytes.{Bytes}
use store.Memiavl.Node.{Node, leaf, branch, size, height}
use store.Memiavl.Node.Balance.{IsAvl, height-lt}
use store.Memiavl.Node.Leaves.{IsKeyed}
use store.Memiavl.Tree.{Tree}
use store.Memiavl.Export.{export_node, export}
use store.Memiavl.Export.Visits.{post_order, root_order, root_rounds, scan_root_lem}
use store.Memiavl.Snapshot.{
  LeafLayout, SnapshotFiles, new_snapshot_writer, write_recursive, write_files, write_root,
  write_snapshot,
}
use store.Memiavl.Snapshot.Counts.{size-pos, write_recursive-HasCounted}
use store.Memiavl.Snapshot.Scan.{leaf_key_value, export_nodes, export_leaves, snapshot_export}
use store.Memiavl.Snapshot.Scan.Slices.{kv_bytes, leaf_key_value_lem}
use store.Memiavl.Snapshot.Layout.{
  HasValues, kvs_of, leaf_layout, leaves_of, nodes_of, write_recursive-HasAppended, located, moved,
  length-leaves_of,
}
use store.Memiavl.Snapshot.Layout.Run.{prefixed, run_tree}

-- A tree whose snapshot can be read: balanced, branches with the smallest keys of their right subtrees,
-- less than 2 ^ 32 leaves, and keys and values of less than 2 ^ 32 bytes and below 2 ^ 64 in all.
abbrev pub IsReadable : Option Node → Type 0
IsReadable none = Unit
IsReadable (some root) =
    IsAvl root
    × IsKeyed root
    × HasValues root
    × (size root < 2 ^ 32)
    × (length (kvs_of root) < 2 ^ 64)

module _ (sha256 : Bytes → Bytes) where
  -- Two leaves or more are exported with the branch nodes.
  several :
      (files : SnapshotFiles) (leaves : List LeafLayout)
      → 2 ≤ length leaves
      → export_leaves files leaves ≡ export_nodes files.kvs leaves files.nodes leaves 0
  unfolding export_leaves
  several files [] h = absurd (omega arith)
  several files (l ∷ []) h = absurd (omega arith)
  several files (l ∷ m ∷ leaves) h = refl

  -- The files of a tree.
  abbrev files_of : ℕ → Node → SnapshotFiles
  files_of version root = record {
    version = version;
    nodes = nodes_of sha256 root 0 0;
    leaves = leaves_of sha256 root 0;
    kvs = kvs_of root;
  }

  written :
      (root : Node) (version : ℕ)
      → IsReadable (some root)
      → write_root sha256 version (some root) ≡ files_of version root
  unfolding write_root write_files
  written root version (a, k, values, small, b) =
      let w = write_recursive sha256 root new_snapshot_writer in
      let c =
        write_recursive-HasCounted sha256 root new_snapshot_writer a
          (unfold new_snapshot_writer in omega arith) (unfold new_snapshot_writer in omega arith) in
      let x =
        write_recursive-HasAppended sha256 root new_snapshot_writer a values
          (unfold new_snapshot_writer in omega arith) (unfold new_snapshot_writer in omega arith)
          (unfold new_snapshot_writer in omega arith) in
      let some_leaves : ltb 0 w.leaf_counter ≡ true =
        unfold new_snapshot_writer in ground (arith, c.leaves, size-pos root a) in
      let nodes : w.nodes ≡ nodes_of sha256 root 0 0 = unfold new_snapshot_writer in x.nodes in
      let leaves : w.leaves ≡ leaves_of sha256 root 0 = unfold new_snapshot_writer in x.leaves in
      let kvs : w.kvs ≡ kvs_of root = unfold new_snapshot_writer in x.kvs in
      rw some_leaves (
        ap (λ z. record { version = version; nodes = z; leaves = w.leaves; kvs = w.kvs }) nodes
        ∙ ap
            (λ z. record {
              version = version;
              nodes = nodes_of sha256 root 0 0;
              leaves = z;
              kvs = w.kvs;
            })
            leaves
        ∙ ap
            (λ z. record {
              version = version;
              nodes = nodes_of sha256 root 0 0;
              leaves = leaves_of sha256 root 0;
              kvs = z;
            })
            kvs)

  exported :
      (root : Node) (version : ℕ)
      → IsReadable (some root)
      → snapshot_export (files_of version root) ≡ some (map export_node (post_order root))
  exported (leaf key none v kept) version (a, k, values, h, b) = absurd values
  exported (leaf key (some value) v kept) version (a, k, values, h, b) =
      let l : LeafLayout = leaf_layout sha256 key v (some value) kept 0 in
      let x : leaf_key_value l (kv_bytes key value ++ []) ≡ some (key, value) =
        leaf_key_value_lem 0 key value [] [] refl values.0 values.1 v l.hash in
      let y : leaf_key_value l (kv_bytes key value) ≡ some (key, value) =
        ap (leaf_key_value l) (sym (append-nil (kv_bytes key value))) ∙ x in
      unfold snapshot_export export_leaves leaves_of kvs_of post_order export_node in rw y refl
  exported (branch hh s v key kept left right) version (a, k, values, small, b) =
      let root : Node = branch hh s v key kept left right in
      let all = leaves_of sha256 root 0 in
      let kvs = kvs_of root in
      let l =
        moved sha256 root 0 0 (append-nil all) (append-nil kvs)
          (located sha256 root 0 0 [] [] [] [] a values refl refl) in
      let low = height-lt root a (omega arith) in
      let r = run_tree sha256 all kvs root 0 0 0 0 [] [] [] [] a k values (omega arith) l tt refl in
      let sized : size root ≡ size left + size right = unfold size in a.1 in
      let two : 2 ≤ length all =
        omega
          (arith, length-leaves_of sha256 root 0 a, sized, size-pos left a.4, size-pos right a.5) in
      let ran : export_nodes kvs all (nodes_of sha256 root 0 0) all 0 ≡ some (r.out ++ []) =
        ap₂ (λ x y. export_nodes kvs all x y 0) (sym (append-nil (nodes_of sha256 root 0 0)))
          (sym (append-nil all))
        ∙ r.runs
        ∙ unfold prefixed export_nodes in refl in
      let whole : r.out ++ [] ≡ map export_node (post_order root) =
        ap (λ z. r.out ++ z) (sym (r.settled (unfold height in omega (arith, a.0)))) ∙ r.whole in
      unfold snapshot_export in (several (files_of version root) all two ∙ ran ∙ ap some whole)

  root_export :
      (root : Option Node) (version : ℕ)
      → IsReadable root
      → snapshot_export (write_root sha256 version root) ≡ some (map export_node (root_order root))
  root_export none version h = unfold write_root write_files snapshot_export export_leaves in refl
  root_export (some root) version h =
      ap snapshot_export (written root version h) ∙ exported root version h

  -- For any hash function, on a tree with no root, or with a balanced one whose branches have
  -- the smallest keys of their right subtrees, with less than 2 ^ 32 leaves that have values,
  -- keys and values of less than 2 ^ 32 bytes, and less than 2 ^ 64 bytes of them with their
  -- lengths: the sequential export of the snapshot that `WriteSnapshot` writes gives the same
  -- nodes, in the same order, as the tree's own `Export` by its post-order scan, which ends in
  -- more rounds than its nodes need.
  pub snapshot_export-write_snapshot :
      {S : Type 0} (t : Tree S) (n : ℕ)
      → IsReadable t.root
      → root_rounds t.root < n
      → snapshot_export (write_snapshot sha256 t) ≡ export n t
  unfolding write_snapshot export
  snapshot_export-write_snapshot t n h r =
      root_export t.root t.version h ∙ sym (rw (scan_root_lem t.root n r) refl)
