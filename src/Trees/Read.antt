-- ===== src/Trees/Read.antt =====
-- Reading a tree: the bytes are checked against the hash before they are parsed, and every name is
-- checked before an entry is returned.
use omemfs.Prelude.{ℕ, Bool, false, List, [], ◌∷◌, Option, none, some, if◌then◌else◌, drop, any}
use omemfs.Prelude.Bytes.{Bytes, codes, bytes_eq, starts_with}
use omemfs.Prelude.Errors.{Result, ok, err, ◌>>=◌, ◌>>◌, json, invalid_object}
use omemfs.Object.Digest.{Digest, digest_eq, compute}
use omemfs.Object.Tags.{type_tag_tree, is_tree_bytes}
use omemfs.Object.Names.{validate_entry_name}
use omemfs.Object.Entry.{
  TreeEntry, tree, entry_name, entry_hash, aggregate_mtime, aggregate_size, aggregate_blob_count,
}
use omemfs.Object.Entry.Sorting.{find_name}
use omemfs.Trees.Store.{Store, store_read}

unfoldable pub validate_names : List TreeEntry → Result (Unit {0})
validate_names [] = ok tt
validate_names (e ∷ es) = do validate_entry_name (entry_name e); validate_names es

-- The hash of the entry that was found, and what is done below it: nothing where there is none.
unfoldable pub hash_of : Option TreeEntry → Option Digest
hash_of none = none
hash_of (some e) = entry_hash e

unfoldable pub at_hash {ℓ} :
    {A : Type ℓ} → (Digest → Result (Option A)) → Option Digest → Result (Option A)
at_hash below none = ok none
at_hash below (some child_hash) = below child_hash

module _ (from_json : Bytes → Option (List TreeEntry)) where
  -- `serde_json::from_slice(json)?`
  unfoldable pub parse_json : Bytes → Result (List TreeEntry)
  parse_json text = elim (from_json text) [ none ↦ err json | some entries ↦ ok entries ]

  -- `Tree::deserialise`
  unfoldable pub deserialise_tree : Bytes → Result (List TreeEntry)
  unfolding parse_json validate_names
  deserialise_tree stored = do
    entries ← parse_json (if starts_with stored type_tag_tree then drop 2 stored else stored)
    validate_names entries
    ok entries

module _ (sha256 : Bytes → Bytes) (from_json : Bytes → Option (List TreeEntry)) where
  -- `read_tree`
  unfoldable pub read_tree : Store → Digest → Result (List TreeEntry)
  read_tree s hash = do
    stored ← store_read s hash
    if digest_eq (compute sha256 stored) hash
        then deserialise_tree from_json stored
        else err invalid_object

  unfoldable pub find_entry_in_tree : Store → Digest → Bytes → Result (Option TreeEntry)
  find_entry_in_tree s tree_hash name = do
    entries ← read_tree s tree_hash
    ok (find_name name entries)

  -- `navigate_entry` from a tree: the entry at the end of a path, which has a first name.
  unfoldable pub navigate_entry : Store → Digest → Bytes → List Bytes → Result (Option TreeEntry)
  navigate_entry s root name [] = find_entry_in_tree s root name
  navigate_entry s root name (next ∷ rest) = do
    found ← find_entry_in_tree s root name
    at_hash (λ child_hash. navigate_entry s child_hash next rest) (hash_of found)

  -- `navigate`: the hash at the end of a path, the root itself for the empty one.
  unfoldable pub navigate : Store → Digest → List Bytes → Result (Option Digest)
  navigate s root [] = ok (some root)
  navigate s root (name ∷ rest) = do
    found ← find_entry_in_tree s root name
    at_hash (λ child_hash. navigate s child_hash rest) (hash_of found)

  -- `tree_meta`
  unfoldable pub tree_meta : Store → Digest → Result (Option ℕ × ℕ × ℕ)
  tree_meta s hash = do
    entries ← read_tree s hash
    ok (aggregate_mtime entries, aggregate_size entries, aggregate_blob_count entries)

  abbrev pub is_git_dir : TreeEntry → Bool
  is_git_dir (tree name hash mtime size blob_count) = bytes_eq name (codes ".git")
  is_git_dir _ = false

  -- `tree_contains_git_dir` of src/commands/pull.rs
  unfoldable pub tree_contains_git_dir : Store → Digest → Bool
  tree_contains_git_dir s hash = elim (store_read s hash) [
    | err e ↦ false
    | ok stored ↦
        if is_tree_bytes stored
        then (elim (deserialise_tree from_json stored) [
          | err e ↦ false
          | ok entries ↦ any is_git_dir entries
        ])
        else false
  ]
