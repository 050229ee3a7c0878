-- ===== src/Memiavl/Snapshot/Layout/Run.antt =====
-- The sequential export of a snapshot gives the nodes of the tree that was written.
use store.Prelude.{
  ℕ, ◌+◌, ◌-◌, ◌%◌, ◌<◌, max, Option, none, some, List, [], ◌∷◌, ◌++◌, append_assoc, append-nil,
  map, length, length-append, ◌≡◌, refl, sym, ap, ap₂, ◌∙◌, arith, ◌>>=◌,
}
use store.Bytes.{Bytes}
use store.Memiavl.Node.{Node, leaf, branch, size, height}
use store.Memiavl.Node.Balance.{IsAvl}
use store.Memiavl.Node.Leaves.{min_key, IsKeyed}
use store.Memiavl.Export.{ExportNode, export_node}
use store.Memiavl.Export.Visits.{post_order}
use store.Memiavl.Snapshot.{LeafLayout, NodeLayout}
use store.Memiavl.Snapshot.Scan.{
  key_value_at, leaf_key_at, exported_leaf, take_leaves, export_nodes,
}
use store.Memiavl.Snapshot.Layout.{
  HasValues, kvs_of, leaf_layout, node_layout, leaves_of, nodes_of, Located,
}

unfoldable pub prefixed : List ExportNode → Option (List ExportNode) → Option (List ExportNode)
prefixed xs o = o >>= λ ys. some (xs ++ ys)

prefixed-prefixed :
    (xs ys : List ExportNode) (o : Option (List ExportNode))
    → prefixed xs (prefixed ys o) ≡ prefixed (xs ++ ys) o
unfolding prefixed
prefixed-prefixed xs ys none = refl
prefixed-prefixed xs ys (some zs) = ap some (sym (append_assoc xs ys zs))

prefixed-nil : (o : Option (List ExportNode)) → o ≡ prefixed [] o
unfolding prefixed
prefixed-nil none = refl
prefixed-nil (some zs) = refl

map_append :
    (xs ys : List Node) → map export_node (xs ++ ys) ≡ map export_node xs ++ map export_node ys
map_append [] ys = refl
map_append (x ∷ xs) ys = ap (◌∷◌ (export_node x)) (map_append xs ys)

module _ (sha256 : Bytes → Bytes) (all : List LeafLayout) (kvs : Bytes) where
  -- Leaf records, and the nodes that are read by them.
  abbrev pub Reads : List LeafLayout → List ExportNode → Type 0
  Reads [] [] = Unit
  Reads [] (n ∷ ns) = ⊥
  Reads (l ∷ ls) [] = ⊥
  Reads (l ∷ ls) (n ∷ ns) =
      ((kv : Bytes × Bytes) × (key_value_at l.key_offset kvs ≡ some kv) × (n ≡ exported_leaf l kv))
      × Reads ls ns

  Reads-append :
      (ls : List LeafLayout) (ns : List ExportNode) (ms : List LeafLayout) (os : List ExportNode)
      → Reads ls ns
      → Reads ms os
      → Reads (ls ++ ms) (ns ++ os)
  Reads-append [] [] ms os h k = k
  Reads-append [] (n ∷ ns) ms os h k = absurd h
  Reads-append (l ∷ ls) [] ms os h k = absurd h
  Reads-append (l ∷ ls) (n ∷ ns) ms os (h, hs) k = (h, Reads-append ls ns ms os hs k)

  take_leaves_lem :
      (ls : List LeafLayout) (ns : List ExportNode) (rest : List LeafLayout)
      → Reads ls ns
      → take_leaves kvs (length ls) (ls ++ rest) ≡ some (ns, rest)
  unfolding take_leaves
  take_leaves_lem [] [] rest h = refl
  take_leaves_lem [] (n ∷ ns) rest h = absurd h
  take_leaves_lem (l ∷ ls) [] rest h = absurd h
  take_leaves_lem (l ∷ ls) (n ∷ ns) rest ((kv, e, f), hs) =
      rw (e, take_leaves_lem ls ns rest hs, f) refl

  first_key :
      (t : Node) (count offset : ℕ)
      → Located sha256 all kvs t count offset
      → leaf_key_at count all kvs ≡ some (min_key t)
  unfolding leaf_key_at min_key
  first_key (leaf key value version kept) count offset (e, r, k) = rw (e, leaf_key_at) k
  first_key (branch h s version key kept left right) count offset h' =
      first_key left count offset h'.0

  -- The loop of the export on the part of a tree, with `pending` trees and `waiting` leaves before it: it
  -- gives `out` and leaves `waiting'`.
  pub record HasRun (t : Node) (count offset before pending : ℕ) (waiting : List LeafLayout)
      (read : List ExportNode) (nodes : List NodeLayout) (leaves : List LeafLayout) : Type 0 where
    pub out : List ExportNode
    pub waiting' : List LeafLayout
    pub read' : List ExportNode
    pub pending' : ℕ
    pub runs :
        export_nodes kvs all
          (nodes_of sha256 t count before ++ nodes)
          (waiting ++ (leaves_of sha256 t offset ++ leaves))
          pending
        ≡ prefixed out (export_nodes kvs all nodes (waiting' ++ leaves) pending')
    pub reads : Reads waiting' read'
    pub whole : out ++ read' ≡ read ++ map export_node (post_order t)
    pub settled : 0 < height t → read' ≡ []
    pub counted : pending' + length waiting' ≡ before + 1

  -- The round of a branch, when all its leaves wait.
  branch_round :
      (h s version : ℕ) (key : Bytes) (kept : Option Bytes) (left right : Node)
      (count offset before pending : ℕ) (waiting : List LeafLayout) (read : List ExportNode)
      (nodes : List NodeLayout) (leaves : List LeafLayout)
      → before < 256
      → Reads waiting read
      → pending + length waiting ≡ before + 2
      → min_key right ≡ key
      → Located sha256 all kvs right count offset
      → export_nodes kvs all
          (node_layout sha256 h s version key kept left right (before % 256) count ∷ nodes)
          (waiting ++ leaves)
          pending
        ≡ prefixed
            (read ++ (export_node (branch h s version key kept left right) ∷ []))
            (export_nodes kvs all nodes leaves (before + 1))
  unfolding export_nodes export_node prefixed
  branch_round h s version key kept left right count offset before pending waiting read nodes leaves
        b r e k l =
      let rounds : before % 256 + 2 - pending ≡ length waiting = omega (arith, e) in
      let after : max pending (before % 256 + 2) - 1 ≡ before + 1 = omega (arith, e) in
      rw (rounds, take_leaves_lem waiting read leaves r, first_key right count offset l, k, after)
        (go (export_nodes kvs all nodes leaves (before + 1)))
    where
      go :
          (o : Option (List ExportNode))
          → (o >>= λ rest.
              some (
                read ++ (record { key = key; value = none; version = version; height = h } ∷ rest)))
            ≡ (o >>= λ rest. some (
                (read ++ (record { key = key; value = none; version = version; height = h } ∷ []))
                ++ rest))
      go none = refl
      go (some rest) = ap some (
          sym (
            append_assoc read
              (record { key = key; value = none; version = version; height = h } ∷ []) rest))

  pub run_tree :
      (t : Node) (count offset before pending : ℕ) (waiting : List LeafLayout)
      (read : List ExportNode) (nodes : List NodeLayout) (leaves : List LeafLayout)
      → IsAvl t
      → IsKeyed t
      → HasValues t
      → before + height t < 256
      → Located sha256 all kvs t count offset
      → Reads waiting read
      → pending + length waiting ≡ before
      → HasRun t count offset before pending waiting read nodes leaves
  unfolding nodes_of leaves_of post_order height
  run_tree (leaf key none version kept) count offset before pending waiting read nodes leaves a k v
        b l r e =
      absurd v
  run_tree (leaf key (some value) version kept) count offset before pending waiting read nodes
        leaves a k v b l r e =
      let record_of = leaf_layout sha256 key version (some value) kept offset in
      record {
        out = [];
        waiting' = waiting ++ (record_of ∷ []);
        read' = read ++ (export_node (leaf key (some value) version kept) ∷ []);
        pending' = pending;
        runs =
            ap (λ x. export_nodes kvs all nodes x pending)
              (sym (append_assoc waiting (record_of ∷ []) leaves))
            ∙ prefixed-nil
                (export_nodes kvs all nodes ((waiting ++ (record_of ∷ [])) ++ leaves) pending);
        reads =
            Reads-append waiting read (record_of ∷ [])
              (export_node (leaf key (some value) version kept) ∷ []) r
              (((key, value), l.1, unfold export_node in refl), tt);
        whole = refl;
        settled = λ q. absurd (omega arith);
        counted = omega (arith, e, length-append waiting (record_of ∷ []));
      }
  run_tree (branch h s version key kept left right) count offset before pending waiting read nodes
        leaves a k v b l r e =
      let t : Node = branch h s version key kept left right in
      let node =
        node_layout sha256 h s version key kept left right (before % 256) (count + size left) in
      let n = export_node t in
      let lefts = leaves_of sha256 left offset in
      let rights = leaves_of sha256 right (offset + length (kvs_of left)) in
      let lnodes = nodes_of sha256 left count before in
      let rnodes = nodes_of sha256 right (count + size left) (before + 1) in
      let x =
        run_tree left count offset before pending waiting read (rnodes ++ (node ∷ nodes))
          (rights ++ leaves) a.4 k.1 v.0 (omega (arith, a.0)) l.0 r e in
      let y =
        run_tree right (count + size left) (offset + length (kvs_of left)) (before + 1) x.pending'
          x.waiting' x.read' (node ∷ nodes) leaves a.5 k.2 v.1 (omega (arith, a.0)) l.1 x.reads
          x.counted in
      let z =
        branch_round h s version key kept left right (count + size left)
          (offset + length (kvs_of left)) before y.pending' y.waiting' y.read' nodes leaves
          (omega arith) y.reads (omega (arith, y.counted)) k.0 l.1 in
      let start : export_nodes kvs all ((lnodes ++ (rnodes ++ (node ∷ []))) ++ nodes)
            (waiting ++ ((lefts ++ rights) ++ leaves)) pending
          ≡ export_nodes kvs all (lnodes ++ (rnodes ++ (node ∷ nodes)))
              (waiting ++ (lefts ++ (rights ++ leaves))) pending =
        ap₂ (λ x y. export_nodes kvs all x y pending)
          (append_assoc lnodes (rnodes ++ (node ∷ [])) nodes
            ∙ ap (λ z. lnodes ++ z) (append_assoc rnodes (node ∷ []) nodes))
          (ap (λ z. waiting ++ z) (append_assoc lefts rights leaves)) in
      let rest = export_nodes kvs all nodes leaves (before + 1) in
      record {
        out = x.out ++ (y.out ++ (y.read' ++ (n ∷ [])));
        waiting' = [];
        read' = [];
        pending' = before + 1;
        runs =
            start
            ∙ x.runs
            ∙ ap (prefixed x.out) (
                y.runs ∙ ap (prefixed y.out) z ∙ prefixed-prefixed y.out (y.read' ++ (n ∷ [])) rest)
            ∙ prefixed-prefixed x.out (y.out ++ (y.read' ++ (n ∷ []))) rest;
        reads = tt;
        whole =
            append-nil (x.out ++ (y.out ++ (y.read' ++ (n ∷ []))))
            ∙ joined x.out x.read' y.out y.read' read (map export_node (post_order left))
                (map export_node (post_order right)) n x.whole y.whole
            ∙ ap (λ z. read ++ z)
                (sym (
                  map_append (post_order left) (post_order right ++ (t ∷ []))
                  ∙ ap (λ z. map export_node (post_order left) ++ z)
                      (map_append (post_order right) (t ∷ []))));
        settled = λ q. refl;
        counted = omega arith;
      }
    where
      joined :
          (o r p q d x y : List ExportNode) (n : ExportNode)
          → o ++ r ≡ d ++ x
          → p ++ q ≡ r ++ y
          → o ++ (p ++ (q ++ (n ∷ []))) ≡ d ++ (x ++ (y ++ (n ∷ [])))
      joined o r p q d x y n e f =
          ap (λ z. o ++ z)
            (sym (append_assoc p q (n ∷ []))
              ∙ ap (λ z. z ++ (n ∷ [])) f
              ∙ append_assoc r y (n ∷ []))
          ∙ sym (append_assoc o r (y ++ (n ∷ [])))
          ∙ ap (λ z. z ++ (y ++ (n ∷ []))) e
          ∙ append_assoc d x (y ++ (n ∷ []))
