-- ===== src/Memiavl/Snapshot.antt =====
-- memiavl/snapshot.go and memiavl/import.go: the files of a snapshot and how they are written, from a
-- tree and from exported nodes. The files of nodes and leaves are lists of their records, whose fields are
-- those of memiavl/layout_native.go, and the file of keys and values is its bytes. The writers accept
-- everything, and the context is not cancelled. SHA-256 is a parameter.
pub mod Counts
pub mod Import
pub mod Scan
pub mod Layout
pub mod RoundTrip
use store.Prelude.{
  ℕ, zero, suc, ◌+◌, ◌-◌, ◌%◌, ◌/◌, ◌^◌, Bool, true, false, Option, none, some, List, [], ◌∷◌, ◌++◌,
  ltb, ◌==◌, length, if◌then◌else◌,
}
use store.Bytes.{Bytes}
use store.Memiavl.Node.{Node, leaf, branch, size}
use store.Memiavl.Node.Hash.{hash}
use store.Memiavl.Tree.{Tree}
use store.Memiavl.Export.{ExportNode}

pub record LeafLayout : Type 0 where
  pub version : ℕ
  pub key_length : ℕ
  pub key_offset : ℕ
  pub hash : Bytes

pub record NodeLayout : Type 0 where
  pub height : ℕ
  pub pre_trees : ℕ
  pub version : ℕ
  pub size : ℕ
  pub key_leaf : ℕ
  pub hash : Bytes

pub record SnapshotWriter : Type 0 where
  pub nodes : List NodeLayout
  pub leaves : List LeafLayout
  pub kvs : Bytes
  pub branch_counter : ℕ
  pub leaf_counter : ℕ
  pub kvs_offset : ℕ

unfoldable pub new_snapshot_writer : SnapshotWriter
new_snapshot_writer = record {
  nodes = [];
  leaves = [];
  kvs = [];
  branch_counter = 0;
  leaf_counter = 0;
  kvs_offset = 0;
}

-- `PutUint32` of a number's low 32 bits, little endian.
unfoldable pub put_uint32 : ℕ → Bytes
put_uint32 n = (n % 256) ∷ (n / 2 ^ 8 % 256) ∷ (n / 2 ^ 16 % 256) ∷ (n / 2 ^ 24 % 256) ∷ []

-- The bytes of a slice that may be nil.
abbrev pub slice : Option Bytes → Bytes
slice none = []
slice (some bz) = bz

unfoldable pub write_key_value : Bytes → Option Bytes → SnapshotWriter → SnapshotWriter
unfolding put_uint32
write_key_value key value w = record w {
  kvs =
      w.kvs
      ++ (put_uint32 (length key) ++ (key ++ (put_uint32 (length (slice value)) ++ slice value)));
  kvs_offset = (w.kvs_offset + (8 + length key + length (slice value))) % 2 ^ 64;
}

unfoldable pub write_leaf : ℕ → Bytes → Option Bytes → Bytes → SnapshotWriter → SnapshotWriter
unfolding write_key_value
write_leaf version key value hash w =
    let w1 = write_key_value key value w in
    record w1 {
      leaves =
          w1.leaves
          ++ (record {
            version = version;
            key_length = length key % 2 ^ 32;
            key_offset = w.kvs_offset;
            hash = hash;
          }
              ∷ []);
      leaf_counter = (w1.leaf_counter + 1) % 2 ^ 32;
    }

unfoldable pub write_branch : ℕ → ℕ → ℕ → ℕ → ℕ → Bytes → SnapshotWriter → SnapshotWriter
write_branch version size height pre_trees key_leaf hash w = record w {
  nodes =
      w.nodes
      ++ (record {
        height = height;
        pre_trees = pre_trees;
        version = version;
        size = size;
        key_leaf = key_leaf;
        hash = hash;
      }
          ∷ []);
  branch_counter = (w.branch_counter + 1) % 2 ^ 32;
}

-- The files, with the version in the metadata.
pub record SnapshotFiles : Type 0 where
  pub version : ℕ
  pub nodes : List NodeLayout
  pub leaves : List LeafLayout
  pub kvs : Bytes

-- `writeSnapshot`: the writer is flushed when it has leaves, of which there are `leaves`.
unfoldable pub write_files : ℕ → SnapshotWriter → ℕ → SnapshotFiles
write_files version w leaves =
    if ltb 0 leaves
    then record { version = version; nodes = w.nodes; leaves = w.leaves; kvs = w.kvs }
    else record { version = version; nodes = []; leaves = []; kvs = [] }

-- A result, an error, or a panic.
pub data Imported (A : Type 0) : Type 0 where
  added : A → Imported A
  negative : Imported A
  malformed : Imported A
  underflow : Imported A

infixl 5 ◌>>=◌
abbrev pub ◌>>=◌ : {A B : Type 0} → Imported A → (A → Imported B) → Imported B
added a >>= f = f a
negative >>= f = negative
malformed >>= f = malformed
underflow >>= f = underflow

-- The stacks, the top first.
pub record Importer : Type 0 where
  pub writer : SnapshotWriter
  pub leaves_stack : List ℕ
  pub node_stack : List Node

module _ (sha256 : Bytes → Bytes) where
  unfoldable pub write_recursive : Node → SnapshotWriter → SnapshotWriter
  unfolding hash write_leaf
  write_recursive (leaf key value version kept) w =
      write_leaf version key value (hash sha256 (leaf key value version kept)).0 w
  write_recursive (branch h s version key kept left right) w =
      let pre_trees = (w.leaf_counter + (2 ^ 32 - w.branch_counter)) % 2 ^ 32 % 256 in
      let w1 = write_recursive left w in
      let w2 = write_recursive right w1 in
      write_branch version (s % 2 ^ 32) h pre_trees w1.leaf_counter
        (hash sha256 (branch h s version key kept left right)).0 w2

  -- `WriteSnapshot`
  unfoldable pub write_root : ℕ → Option Node → SnapshotFiles
  unfolding write_recursive write_files
  write_root version none = write_files version new_snapshot_writer 0
  write_root version (some root) =
      let w = write_recursive root new_snapshot_writer in write_files version w w.leaf_counter

  unfoldable pub write_snapshot : {S : Type 0} → Tree S → SnapshotFiles
  unfolding write_root
  write_snapshot t = write_root t.version t.root

  -- The branch of `Add` for a leaf. The node keeps its hash.
  unfoldable pub add_leaf : ExportNode → Importer → Importer
  unfolding write_leaf
  add_leaf n i =
      let (node_hash, node) = hash sha256 (leaf n.key n.value n.version none) in
      let w = write_leaf n.version n.key n.value node_hash i.writer in
      record {
        writer = w;
        leaves_stack = w.leaf_counter ∷ i.leaves_stack;
        node_stack = node ∷ i.node_stack;
      }

  -- For a branch, with two nodes on the stacks. A parent only uses the size and hash of a node, so its
  -- children are left in it.
  unfoldable pub add_branch : ExportNode → Importer → Imported Importer
  add_branch n i = elim i.node_stack [
    | right ∷ left ∷ nodes ↦ elim i.leaves_stack [
      | last ∷ key_leaf ∷ leaves ↦
          let (node_hash, node) =
            hash sha256
              (branch n.height (size left + size right) n.version n.key none left right) in
          let w =
            write_branch n.version (size node % 2 ^ 32) n.height (length nodes % 256) key_leaf
              node_hash i.writer in
          added (record {
            writer = w;
            leaves_stack = w.leaf_counter ∷ leaves;
            node_stack = node ∷ nodes;
          })
      | _ ↦ underflow
    ]
    | _ ↦ underflow
  ]

  unfoldable pub import_add : ExportNode → Importer → Imported Importer
  unfolding add_leaf add_branch
  import_add n i =
      if ltb (2 ^ 63 - 1) n.version
      then negative
      else if n.height == 0
      then added (add_leaf n i)
      else add_branch n i

  unfoldable pub import_all : List ExportNode → Importer → Imported Importer
  unfolding import_add
  import_all [] i = added i
  import_all (n ∷ nodes) i = import_add n i >>= import_all nodes

  -- The leaves that `doImport` reports, by its stack.
  unfoldable pub finish_import : ℕ → Importer → Imported SnapshotFiles
  unfolding write_files
  finish_import version i = elim i.leaves_stack [
    | [] ↦ added (write_files version i.writer 0)
    | _ ∷ [] ↦ added (write_files version i.writer i.writer.leaf_counter)
    | _ ↦ malformed
  ]

  unfoldable pub do_import : ℕ → List ExportNode → Imported SnapshotFiles
  unfolding import_all finish_import new_snapshot_writer
  do_import version nodes =
      if ltb (2 ^ 63 - 1) version
      then negative
      else import_all nodes
          (record { writer = new_snapshot_writer; leaves_stack = []; node_stack = [] })
        >>= finish_import version
