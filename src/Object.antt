-- ===== src/Object.antt =====
-- src/object.rs: hashes, object bytes, tree entries and the names that a tree may hold.
pub mod Digest
pub mod Tags
pub mod Names
pub mod Entry
