-- ===== src/Memiavl/Export.antt =====
-- The post-order export of memiavl/tree.go, and `ExportNode` of memiavl/types.go. The consumer takes all
-- the nodes: `Exporter` of memiavl/export.go, a channel, is left out.
pub mod Visits
use store.Prelude.{
  ℕ, zero, suc, ◌%◌, ◌^◌, Bool, true, false, Option, none, some, List, [], ◌∷◌, map, ◌>>=◌,
}
use store.Bytes.{Bytes}
use store.Memiavl.Node.{Node, leaf, branch}
use store.Memiavl.Tree.{Tree}

-- The version is an int64, given by its 64 bits.
pub record ExportNode : Type 0 where
  pub key : Bytes
  pub value : Option Bytes
  pub version : ℕ
  pub height : ℕ

-- `ScanPostOrder`: a stack of nodes, each with its `expanded`, the top first, on fuel. The nodes that the
-- callback gets, in order.
unfoldable pub scan_loop : ℕ → List (Node × Bool) → Option (List Node)
scan_loop zero stack = none
scan_loop (suc n) [] = some []
scan_loop (suc n) ((leaf key value version hash, expanded) ∷ stack) =
    scan_loop n stack >>= λ nodes. some (leaf key value version hash ∷ nodes)
scan_loop (suc n) ((branch h s v key hash left right, true) ∷ stack) =
    scan_loop n stack >>= λ nodes. some (branch h s v key hash left right ∷ nodes)
scan_loop (suc n) ((branch h s v key hash left right, false) ∷ stack) =
    scan_loop n ((left, false) ∷ (right, false) ∷ (branch h s v key hash left right, true) ∷ stack)

unfoldable pub scan_post_order : ℕ → Option Node → Option (List Node)
unfolding scan_loop
scan_post_order n none = some []
scan_post_order n (some root) = scan_loop n ((root, false) ∷ [])

unfoldable pub export_node : Node → ExportNode
export_node (leaf key value version hash) = record {
  key = key;
  value = value;
  version = version;
  height = 0;
}
export_node (branch h s version key hash left right) = record {
  key = key;
  value = none;
  version = version;
  height = h;
}

-- `Export` of a tree that is not at its snapshot's version.
unfoldable pub export : {S : Type 0} → ℕ → Tree S → Option (List ExportNode)
unfolding scan_post_order export_node
export n t = scan_post_order n t.root >>= λ nodes. some (map export_node nodes)
