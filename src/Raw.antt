-- ===== src/Raw.antt =====
-- src/storage/raw: the layout of a raw device.
pub mod Align
pub mod Allocator
pub mod Quorum
pub mod Format
