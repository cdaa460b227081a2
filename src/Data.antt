-- ===== src/Data.antt =====
-- src/data: the block cache.
pub mod Cache
