-- ===== src/Memiavl/Snapshot/Scan.antt =====
-- memiavl/snapshot.go: the reads of a snapshot's keys and values, and its sequential export. A read out of
-- range panics; offsets so large that a sum of them wraps are out of range here.
pub mod Slices
use store.Prelude.{
  ℕ, zero, suc, ◌+◌, ◌-◌, ◌*◌, ◌^◌, Bool, true, false, Option, none, some, List, [], ◌∷◌, ◌++◌, ltb,
  leb, length, take, drop, get_elem?, max, if◌then◌else◌, ◌>>=◌,
}
use store.Bytes.{Bytes}
use store.Memiavl.Export.{ExportNode}
use store.Memiavl.Snapshot.{LeafLayout, NodeLayout, SnapshotFiles}

-- `Uint32` of the bytes from an offset on.
unfoldable pub uint32_at : ℕ → Bytes → Option ℕ
uint32_at offset bz = elim (drop offset bz) [
  | a ∷ b ∷ c ∷ d ∷ _ ↦ some (a + b * 2 ^ 8 + c * 2 ^ 16 + d * 2 ^ 24)
  | _ ↦ none
]

unfoldable pub slice_at : ℕ → ℕ → Bytes → Option Bytes
slice_at offset n bz = if leb (offset + n) (length bz) then some (take n (drop offset bz)) else none

-- `KeyValue`
unfoldable pub key_value_at : ℕ → Bytes → Option (Bytes × Bytes)
unfolding uint32_at slice_at
key_value_at offset kvs = do
  n ← uint32_at offset kvs
  key ← slice_at (offset + 4) n kvs
  m ← uint32_at (offset + 4 + n) kvs
  value ← slice_at (offset + 4 + n + 4) m kvs
  some (key, value)

-- `LeafKey` and `LeafKeyValue`, at a leaf's record.
unfoldable pub leaf_key : LeafLayout → Bytes → Option Bytes
unfolding slice_at
leaf_key l kvs = slice_at (l.key_offset + 4) l.key_length kvs

unfoldable pub leaf_key_value : LeafLayout → Bytes → Option (Bytes × Bytes)
unfolding uint32_at slice_at
leaf_key_value l kvs = do
  key ← slice_at (l.key_offset + 4) l.key_length kvs
  m ← uint32_at (l.key_offset + 4 + l.key_length) kvs
  value ← slice_at (l.key_offset + 4 + l.key_length + 4) m kvs
  some (key, value)

unfoldable pub leaf_key_at : ℕ → List LeafLayout → Bytes → Option Bytes
unfolding leaf_key
leaf_key_at i leaves kvs = elim (get_elem? leaves i) [ none ↦ none | some l ↦ leaf_key l kvs ]

abbrev pub exported_leaf : LeafLayout → Bytes × Bytes → ExportNode
exported_leaf l (key, value) = record {
  key = key;
  value = some value;
  version = l.version;
  height = 0;
}

-- The inner loop of `export`, `n` times: the leaves exported and the leaves left.
unfoldable pub take_leaves :
    Bytes → ℕ → List LeafLayout → Option (List ExportNode × List LeafLayout)
unfolding key_value_at
take_leaves kvs zero leaves = some ([], leaves)
take_leaves kvs (suc n) [] = none
take_leaves kvs (suc n) (l ∷ leaves) = do
  kv ← key_value_at l.key_offset kvs
  r ← take_leaves kvs n leaves
  some (exported_leaf l kv ∷ r.0, r.1)

-- The loop of `export` over the branch nodes, with the leaves left and the pending trees.
unfoldable pub export_nodes :
    Bytes → List LeafLayout → List NodeLayout → List LeafLayout → ℕ → Option (List ExportNode)
unfolding take_leaves leaf_key_at
export_nodes kvs all [] leaves pending = some []
export_nodes kvs all (node ∷ nodes) leaves pending = do
  r ← take_leaves kvs (node.pre_trees + 2 - pending) leaves
  key ← leaf_key_at node.key_leaf all kvs
  rest ← export_nodes kvs all nodes r.1 (max pending (node.pre_trees + 2) - 1)
  some (
      r.0
      ++ (record { key = key; value = none; version = node.version; height = node.height } ∷ rest))

-- `export`, by the leaves: none, one, or more.
unfoldable pub export_leaves : SnapshotFiles → List LeafLayout → Option (List ExportNode)
unfolding export_nodes leaf_key_value
export_leaves files [] = some []
export_leaves files (l ∷ []) = leaf_key_value l files.kvs >>= λ kv. some (exported_leaf l kv ∷ [])
export_leaves files (l ∷ m ∷ leaves) =
    export_nodes files.kvs (l ∷ m ∷ leaves) files.nodes (l ∷ m ∷ leaves) 0

unfoldable pub snapshot_export : SnapshotFiles → Option (List ExportNode)
unfolding export_leaves
snapshot_export files = export_leaves files files.leaves
