-- ===== src/Extsort.antt =====
-- The external sorter (versiondb/extsort/).
pub mod Delta
pub mod Merge
pub mod Sorter
