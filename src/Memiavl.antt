-- ===== src/Memiavl.antt =====
-- The in-memory IAVL tree (memiavl/).
pub mod SortedMap
pub mod Node
pub mod Tree
pub mod Versions
pub mod MultiTree
pub mod Export
pub mod Snapshot
pub mod Iterator
