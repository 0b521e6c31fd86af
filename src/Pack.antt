-- ===== src/Pack.antt =====
-- src/codec/pack: the remote's packs, their indexes and the pointer to them.
pub mod Bloom
pub mod Index
pub mod IndexRoot
pub mod RootPointer
