-- ===== src/Lib.antt =====
-- Verification of store: the memiavl commitment store, its query cache, and versiondb.
--
-- memiavl keeps the application's state in IAVL trees. A node is a leaf or a branch with stored height
-- and size; a tree has a version, a root and a cache of values; iterators walk it with a stack of nodes.
-- The root multi store publishes committed versions to a query cache, which serves historical queries.
-- versiondb keeps every version of a key in RocksDB, and sorts bulk data with an external sorter.
--
-- Memiavl: memiavl/node.go and memiavl/mem_node.go are Memiavl/Node.antt (`setRecursive` is
--   `set_recursive`, `removeRecursive` is `remove_recursive`, `reBalance` is `re_balance`); its
--   children have the AVL invariant (Balance, Rebalance), the leaves in order (Leaves, Valid), writes
--   (Set, Remove), reads (Read) and hashes (Hash: `writeHashBytes` and `Hash`, with SHA-256 as a
--   parameter; Coded is on the bytes that are hashed, Commits on trees with equal hashes). memiavl/tree.go is Memiavl/Tree.antt (`set` is `tree_set`, `remove`
--   is `tree_remove`, `Get` is `tree_get`), and memiavl/iterator.go is Memiavl/Iterator.antt.
--   memiavl/multitree.go is Memiavl/MultiTree.antt with Changes (change sets and commits) and Replay
--   (`CatchupWAL`) below it, and Memiavl/Versions.antt for its versions and log indexes. Its proofs are
--   on the order of names (Names), the index (Upgrades) and the invariant (Consistent).
--   `ScanPostOrder` and `Export` of memiavl/tree.go are Memiavl/Export.antt, without the branch that
--   hands a tree at its snapshot's version over to the snapshot's own export. The writer of
--   memiavl/snapshot.go and the importer of memiavl/import.go are Memiavl/Snapshot.antt, and the reads
--   and the export of a snapshot are Memiavl/Snapshot/Scan.antt.
--   Memiavl/SortedMap.antt is the abstract view, a list of pairs sorted by key.
-- Rootmulti: memiavl/rootmulti/query_cache.go is Rootmulti/QueryCache.antt.
-- Extsort: versiondb/extsort/delta_encoding.go is Extsort/Delta.antt, versiondb/extsort/merge.go is
--   Extsort/Merge.antt, and versiondb/extsort/sort.go is Extsort/Sorter.antt, where the ends of the
--   chunks' goroutines are events that come between the calls of `Feed` and during `Finalize`.
-- Versiondb: the keys and ranges of versiondb/tsrocksdb/store.go are Versiondb/Keys.antt, and
--   versiondb/tsrocksdb/comparator.go is Versiondb/Comparator.antt.
-- Bytes, Binary and Search model what the code uses of the packages bytes, encoding/binary, io and
-- sort. Prelude has the shared notation and lemmas, Tests the concrete runs.
--
-- Byte slices are lists of numbers, and a slice that may be nil is an `Option`. A nil dereference, an
-- index out of range and `panic` are `none` or the constructor `panic`. Heights are uint8, sizes int64
-- and indexes uint32, with their wrap-around; versions are uint64 where they are added to.
-- Nodes are values. `Mutate` changes a node in place when its version is above the copy-on-write
-- version, and clones it else; both give the same value, so sharing between copies of a tree is not
-- modelled. A hash that a node keeps is data that a write drops.
--
-- Loops: recursion on trees and lists, and fuel in five places. The iterator's loop pops one node
-- of its stack a round, so the count of nodes on the stack is enough. A chunk's stream takes two
-- bytes of it at least for an item. The post-order scan takes a round for a leaf and two for a
-- branch. A merge yields an item a round, so the number of items and one are enough. `sort.Search`
-- halves its interval, and the number of indexes is enough.
--
-- The value cache of the iavl library is the record `Cache` with the laws `CacheLaws`: it answers with
-- the last value added, and forgets keys that are removed, and others at will. The multi-trees of the
-- query cache are a parameter with their `Copy`.
--
-- container/heap, sort.Slice and snappy are parameters of the sorter with the laws `HeapLaws`,
-- `SortLaws` and `SnappyLaws`. The write-ahead log of a multi-tree is a parameter too: its last
-- index, and the decoded entry at an index, if it can be read. The replay counts the indexes that
-- are left.
--
-- Not modelled: loading, copying and writing of multi-trees, opening of snapshots, the write-ahead log's
-- files, the DB's background work, proofs, RocksDB itself, the commands, and the glue to the cosmos SDK.
pub mod Prelude
pub mod Bytes
pub mod Binary
pub mod Search
pub mod Memiavl
pub mod Extsort
pub mod Rootmulti
pub mod Versiondb
pub mod Tests
