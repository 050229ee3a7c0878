-- ===== src/Versiondb.antt =====
-- The versioned store over RocksDB (versiondb/tsrocksdb/).
pub mod Keys
pub mod Comparator
