-- ===== src/Memiavl/Snapshot/Import.antt =====
-- An import of an exported tree writes the same files as the tree's snapshot.
use store.Prelude.{
  ℕ, ◌+◌, ◌-◌, ◌%◌, ◌^◌, ◌<◌, false, Option, none, some, List, [], ◌∷◌, ◌++◌, map, ltb, ◌==◌,
  length, ◌≡◌, refl, sym, ap, ◌∙◌, arith,
}
use store.Bytes.{Bytes}
use store.Memiavl.Node.{Node, leaf, branch, size}
use store.Memiavl.Node.Balance.{IsAvl}
use store.Memiavl.Node.Hash.{hash}
use store.Memiavl.Node.Hash.Fresh.{content_hash, IsFresh, hash_lem}
use store.Memiavl.Node.Hash.Shape.{hash-HasShape}
use store.Memiavl.Tree.{Tree}
use store.Memiavl.Export.{ExportNode, export_node, export}
use store.Memiavl.Export.Visits.{post_order, root_order, root_rounds, scan_root_lem}
use store.Memiavl.Snapshot.{
  SnapshotWriter, SnapshotFiles, Importer, Imported, added, negative, malformed, underflow, ◌>>=◌,
  new_snapshot_writer, write_branch, write_recursive, write_snapshot, write_root, add_leaf,
  add_branch, import_add, import_all, finish_import, do_import,
}
use store.Memiavl.Snapshot.Counts.{size-pos, write_recursive-HasCounted}

-- Every node's version is an int64 that is not negative.
abbrev pub HasVersions : Node → Type 0
HasVersions (leaf key value version kept) = version < 2 ^ 63
HasVersions (branch h s version key kept left right) =
    (version < 2 ^ 63) × HasVersions left × HasVersions right

module _ (sha256 : Bytes → Bytes) where
  -- The node that the importer makes of a tree.
  unfoldable remade : Node → Node
  remade (leaf key value version kept) = (hash sha256 (leaf key value version none)).1
  remade (branch h s version key kept left right) =
      (hash sha256 (
        branch h (size (remade left) + size (remade right)) version key none (remade left)
          (remade right))).1

  record HasSameHash (t : Node) : Type 0 where
    same_size : size (remade t) ≡ size t
    fresh : IsFresh sha256 (remade t)
    same_hash : content_hash sha256 (remade t) ≡ content_hash sha256 t

  remade-HasSameHash : (t : Node) → IsAvl t → HasSameHash t
  unfolding remade content_hash size
  remade-HasSameHash (leaf key value version kept) a =
      let n : Node = leaf key value version none in
      let k = hash_lem sha256 n tt in
      record {
        same_size = (hash-HasShape sha256 n).same_size;
        fresh = k.fresh;
        same_hash = k.same_hash;
      }
  remade-HasSameHash (branch h s version key kept left right) a =
      let l = remade-HasSameHash left a.4 in
      let r = remade-HasSameHash right a.5 in
      let n : Node =
        branch h (size (remade left) + size (remade right)) version key none (remade left)
          (remade right) in
      let k = hash_lem sha256 n (tt, l.fresh, r.fresh) in
      let sized : size (remade left) + size (remade right) ≡ s =
        omega (arith, l.same_size, r.same_size, a.1) in
      record {
        same_size = (hash-HasShape sha256 n).same_size ∙ sized;
        fresh = k.fresh;
        same_hash = k.same_hash ∙ rw (sized, l.same_hash, r.same_hash) refl;
      }

  -- The importer after a tree.
  abbrev imported : Node → Importer → Importer
  imported t i =
      let w = write_recursive sha256 t i.writer in
      record {
        writer = w;
        leaves_stack = w.leaf_counter ∷ i.leaves_stack;
        node_stack = remade t ∷ i.node_stack;
      }

  map_append :
      (xs ys : List Node) → map export_node (xs ++ ys) ≡ map export_node xs ++ map export_node ys
  map_append [] ys = refl
  map_append (x ∷ xs) ys = ap (◌∷◌ (export_node x)) (map_append xs ys)

  import_all-append :
      (xs ys : List ExportNode) (i : Importer)
      → import_all sha256 (xs ++ ys) i ≡ (import_all sha256 xs i >>= import_all sha256 ys)
  unfolding import_all
  import_all-append [] ys i = refl
  import_all-append (x ∷ xs) ys i = go (import_add sha256 x i) (λ j. import_all-append xs ys j)
    where
      go :
          (o : Imported Importer)
          → ((j : Importer)
              → import_all sha256 (xs ++ ys) j ≡ (import_all sha256 xs j >>= import_all sha256 ys))
          → (o >>= import_all sha256 (xs ++ ys))
            ≡ (o >>= import_all sha256 xs >>= import_all sha256 ys)
      go (added j) k = k j
      go negative k = refl
      go malformed k = refl
      go underflow k = refl

  import_leaf :
      (key : Bytes) (value : Option Bytes) (version : ℕ) (kept : Option Bytes) (i : Importer)
      → IsFresh sha256 (leaf key value version kept)
      → version < 2 ^ 63
      → import_add sha256 (export_node (leaf key value version kept)) i
        ≡ added (imported (leaf key value version kept) i)
  unfolding import_add export_node add_leaf write_recursive remade
  import_leaf key value version kept i f v =
      let not_negative : ltb (2 ^ 63 - 1) version ≡ false = ground arith in
      let same : (hash sha256 (leaf key value version kept)).0
          ≡ (hash sha256 (leaf key value version none)).0 =
        (hash_lem sha256 (leaf key value version kept) f).value
        ∙ unfold content_hash in sym ((hash_lem sha256 (leaf key value version none) tt).value) in
      rw (not_negative, same) refl

  -- The importer joins the two nodes on its stack.
  import_branch :
      (h s version : ℕ) (key : Bytes) (kept : Option Bytes) (left right : Node) (last key_leaf : ℕ)
      (leaves : List ℕ) (nodes : List Node) (w : SnapshotWriter)
      → IsAvl (branch h s version key kept left right)
      → IsFresh sha256 (branch h s version key kept left right)
      → version < 2 ^ 63
      → import_add sha256 (export_node (branch h s version key kept left right)) (record {
        writer = w;
        leaves_stack = last ∷ key_leaf ∷ leaves;
        node_stack = remade right ∷ remade left ∷ nodes;
      })
        ≡ added (record {
          writer =
              write_branch version
                (s % 2 ^ 32)
                h
                (length nodes % 256)
                key_leaf
                (hash sha256 (branch h s version key kept left right)).0
                w;
          leaves_stack = w.leaf_counter ∷ leaves;
          node_stack = remade (branch h s version key kept left right) ∷ nodes;
        })
  unfolding import_add export_node add_branch write_branch size
  import_branch h s version key kept left right last key_leaf leaves nodes w a f v =
      let b : Node = branch h s version key kept left right in
      let l = remade-HasSameHash left a.4 in
      let r = remade-HasSameHash right a.5 in
      let n : Node =
        branch h (size (remade left) + size (remade right)) version key none (remade left)
          (remade right) in
      let not_negative : ltb (2 ^ 63 - 1) version ≡ false = ground arith in
      let high : (h == 0) ≡ false = ground (arith, a.0) in
      let sized : size (hash sha256 n).1 ≡ s =
        unfold remade in (remade-HasSameHash b a).same_size in
      let same : (hash sha256 n).0 ≡ (hash sha256 b).0 =
        (hash_lem sha256 n (tt, l.fresh, r.fresh)).value
        ∙ sym (hash_lem sha256 n (tt, l.fresh, r.fresh)).same_hash
        ∙ unfold remade in (remade-HasSameHash b a).same_hash ∙ sym (hash_lem sha256 b f).value in
      unfold remade in rw (not_negative, high, sized, same) refl

  import_tree :
      (t : Node) (i : Importer)
      → IsAvl t
      → IsFresh sha256 t
      → HasVersions t
      → i.writer.leaf_counter ≡ i.writer.branch_counter + length i.node_stack
      → i.writer.leaf_counter + size t < 2 ^ 32
      → import_all sha256 (map export_node (post_order t)) i ≡ added (imported t i)
  unfolding import_all import_add post_order export_node add_leaf write_recursive write_branch
  import_tree (leaf key value version kept) i a f v c b =
      rw (import_leaf key value version kept i f v) refl
  import_tree (branch h s version key kept left right) i a f v c b =
      let t : Node = branch h s version key kept left right in
      let i1 = imported left i in
      let i2 = imported right i1 in
      let some_left = size-pos left a.4 in
      let some_right = size-pos right a.5 in
      let below : i.writer.leaf_counter + (size left + size right) < 2 ^ 32 =
        unfold size in omega (arith, a.1) in
      let l = write_recursive-HasCounted sha256 left i.writer a.4 (omega arith) (omega arith) in
      let first = import_tree left i a.4 f.1 v.1 c (omega arith) in
      let second =
        import_tree right i1 a.5 f.2 v.2 (omega (arith, l.leaves, l.branches))
          (omega (arith, l.leaves)) in
      let pre : (i.writer.leaf_counter + (2 ^ 32 - i.writer.branch_counter)) % 2 ^ 32 % 256
          ≡ length i.node_stack % 256 =
        omega arith in
      let e = export_node t in
      let lefts = map export_node (post_order left) in
      let rights = map export_node (post_order right) in
      let parts : map export_node (post_order left ++ (post_order right ++ (t ∷ [])))
          ≡ lefts ++ (rights ++ (e ∷ [])) =
        map_append (post_order left) (post_order right ++ (t ∷ []))
        ∙ ap (λ x. lefts ++ x) (map_append (post_order right) (t ∷ [])) in
      let last =
        import_branch h s version key kept left right i2.writer.leaf_counter i1.writer.leaf_counter
          i.leaves_stack i.node_stack i2.writer a f v.0 in
      let run : import_all sha256 (lefts ++ (rights ++ (e ∷ []))) i
          ≡ import_all sha256 (e ∷ []) i2 =
        import_all-append lefts (rights ++ (e ∷ [])) i
        ∙ ap (λ o. o >>= import_all sha256 (rights ++ (e ∷ []))) first
        ∙ import_all-append rights (e ∷ []) i1
        ∙ ap (λ o. o >>= import_all sha256 (e ∷ [])) second in
      ap (λ x. import_all sha256 x i) parts ∙ run ∙ ap (λ o. o >>= added) last ∙ rw pre refl

  -- A tree that can be written: balanced, with kept hashes of its contents, versions that are int64, and
  -- less than 2 ^ 32 leaves.
  abbrev pub IsWritable : Option Node → Type 0
  IsWritable none = Unit
  IsWritable (some root) =
      IsAvl root × IsFresh sha256 root × HasVersions root × (size root < 2 ^ 32)

  -- The nodes are exported, and their import at the version writes the files.
  abbrev pub HasFiles : ℕ → SnapshotFiles → Option (List ExportNode) → Type 0
  HasFiles version files none = ⊥
  HasFiles version files (some nodes) = do_import sha256 version nodes ≡ added files

  import_root :
      (root : Option Node) (version : ℕ)
      → IsWritable root
      → version < 2 ^ 63
      → do_import sha256 version (map export_node (root_order root))
        ≡ added (write_root sha256 version root)
  unfolding do_import write_root import_all finish_import
  import_root none version h p =
      let not_negative : ltb (2 ^ 63 - 1) version ≡ false = ground arith in rw not_negative refl
  import_root (some root) version (a, f, v, b) p =
      let not_negative : ltb (2 ^ 63 - 1) version ≡ false = ground arith in
      let start : Importer = record {
        writer = new_snapshot_writer;
        leaves_stack = [];
        node_stack = [];
      } in
      rw
        (
          not_negative,
          import_tree root start a f v (unfold new_snapshot_writer in refl)
              (unfold new_snapshot_writer in omega arith),
        )
        refl

  -- For any hash function, on a tree with a version below 2 ^ 63 that has no root, or a
  -- balanced one with less than 2 ^ 32 leaves, with kept hashes of its contents and node
  -- versions below 2 ^ 63: in more rounds than its nodes need, `Export` (when it does not hand
  -- over to a snapshot of the tree's version) yields its nodes, and their import at the tree's
  -- version writes exactly the files that `WriteSnapshot` writes for the tree.
  pub do_import-export :
      {S : Type 0} (t : Tree S) (n : ℕ)
      → IsWritable t.root
      → t.version < 2 ^ 63
      → root_rounds t.root < n
      → HasFiles t.version (write_snapshot sha256 t) (export n t)
  unfolding export write_snapshot
  do_import-export t n h p r = rw (scan_root_lem t.root n r) (import_root t.root t.version h p)
