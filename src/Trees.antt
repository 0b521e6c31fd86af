-- ===== src/Trees.antt =====
-- src/tree_ops.rs over src/object.rs: reading, checking, searching, changing and flattening trees.
-- A store holds the decoded bytes of each object by its hash. SHA-256 and serde's JSON are not code
-- of the repository: `sha256`, `to_json` and `from_json` are parameters. The in-process cache of
-- parsed trees returns what `read_tree` returned for the same hash, and is left out.
pub mod Store
pub mod Walk
pub mod Read
pub mod Change
pub mod Flatten
