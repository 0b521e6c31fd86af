-- ===== src/Trees/Change.antt =====
-- `splice_entry`, `remove_entry` and `build_and_store` of src/tree_ops.rs.
pub mod Stored
pub mod Splice
use omemfs.Prelude.{
  ℕ, Bool, true, false, List, [], ◌∷◌, ◌++◌, Option, none, some, if◌then◌else◌, filter, not, length,
  ◌==◌,
}
use omemfs.Prelude.Bytes.{Bytes}
use omemfs.Prelude.Errors.{Error, Result, ok, err}
use omemfs.Object.Digest.{Digest, compute}
use omemfs.Object.Tags.{type_tag_tree}
use omemfs.Object.Entry.{TreeEntry, tree, sorted_entries}
use omemfs.Object.Entry.Sorting.{find_name, has_name}
use omemfs.Trees.Store.{Store, Step, pure, reading, ◌>>=◌, store_write}
use omemfs.Trees.Read.{read_tree, tree_meta, hash_of}

-- `entries[pos] = e` at the first entry of the name, or `entries.push(e)`.
pub set_entry : Bytes → TreeEntry → List TreeEntry → List TreeEntry
set_entry name e [] = e ∷ []
set_entry name e (f ∷ fs) = if has_name name f then e ∷ fs else f ∷ set_entry name e fs

-- The hash of the child that a path goes through: of a blob, too, as in the source.
unfoldable pub child_of : Bytes → List TreeEntry → Option Digest
child_of name entries = hash_of (find_name name entries)

module _ (sha256 : Bytes → Bytes) (to_json : List TreeEntry → Bytes)
    (from_json : Bytes → Option (List TreeEntry)) where
  -- `Tree::serialise`
  pub serialise_tree : List TreeEntry → Bytes
  serialise_tree entries = type_tag_tree ++ to_json entries

  -- `build_and_store`
  pub build_and_store : List TreeEntry → Step Digest
  build_and_store entries s =
      let bytes = serialise_tree (sorted_entries entries) in
      let hash = compute sha256 bytes in (ok hash, store_write hash bytes s)

  load : Digest → Step (List TreeEntry)
  load hash = reading (λ s. read_tree sha256 from_json s hash)

  load_base : Option Digest → Step (List TreeEntry)
  load_base none = pure []
  load_base (some hash) = load hash

  -- The entry for a tree that was built anew.
  pub dir_entry : Bytes → Digest → Step TreeEntry
  dir_entry name hash = do
    (mtime, size, blob_count) ← reading (λ s. tree_meta sha256 from_json s hash)
    pure (tree name hash mtime size blob_count)

  -- `splice_entry` at the path `name`, `rest`
  pub splice_entry : Option Digest → Bytes → List Bytes → TreeEntry → Step Digest
  splice_entry base_hash name [] new_entry = do
    entries ← load_base base_hash
    build_and_store (set_entry name new_entry entries)
  splice_entry base_hash name (next ∷ rest) new_entry = do
    entries ← load_base base_hash
    child_hash ← splice_entry (child_of name entries) next rest new_entry
    new_child ← dir_entry name child_hash
    build_and_store (set_entry name new_child entries)

  -- `remove_entry`; `none` when there is no such entry.
  pub remove_entry : Digest → Bytes → List Bytes → Step (Option Digest)
  remove_entry base_hash name [] = do
    entries ← load base_hash
    let kept = filter (λ e. not (has_name name e)) entries
    (if length kept == length entries
        then pure none
        else (do hash ← build_and_store kept; pure (some hash)))
  remove_entry base_hash name (next ∷ rest) = do
    entries ← load base_hash
    elim (child_of name entries) [
      | none ↦ pure none
      | some child_hash ↦ do
        removed ← remove_entry child_hash next rest
        elim removed [
          | none ↦ pure none
          | some new_child_hash ↦ do
            new_child ← dir_entry name new_child_hash
            hash ← build_and_store (set_entry name new_child entries)
            pure (some hash)
        ]
    ]
