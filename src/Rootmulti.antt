-- ===== src/Rootmulti.antt =====
-- The multi-store over memiavl (memiavl/rootmulti/).
pub mod QueryCache
