-- ===== src/Volume.antt =====
-- src/volume: the operations on files.
pub mod Sparse
pub mod Tree
pub mod Commit
pub mod Names
pub mod Namespace
