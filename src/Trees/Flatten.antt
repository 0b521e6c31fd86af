-- ===== src/Trees/Flatten.antt =====
-- The flatten functions of src/tree_ops.rs: a tree as a map from paths to entries.
pub mod Local
use omemfs.Prelude.{
  ℕ, zero, suc, Bool, true, false, List, [], ◌∷◌, Option, none, some, if◌then◌else◌,
}
use omemfs.Prelude.Bytes.{Bytes}
use omemfs.Prelude.Errors.{Result, ok}
use omemfs.Prelude.Maps.{insert}
use omemfs.Object.Digest.{Digest}
use omemfs.Object.Entry.{TreeEntry, blob, tree, symlink, entry_name}
use omemfs.Object.Names.Paths.{join_path, split_path}
use omemfs.Trees.Store.{Store, exists}
use omemfs.Trees.Read.{read_tree, navigate_entry}
use omemfs.Trees.Walk.{Walk, out_of_fuel, failed, done, lift, ◌>>=◌}

abbrev pub Flat : Type 0
Flat = List (Bytes × TreeEntry)

-- What a walk does at a child tree: its hash, its path and what is collected so far.
abbrev pub Below : Type 0
Below = Digest → Bytes → Flat → Walk Flat

-- The loop of `flatten_into`.
unfoldable pub flatten_entries : Below → Bytes → List TreeEntry → Flat → Walk Flat
unfolding join_path insert entry_name
flatten_entries below prefix [] out = done out
flatten_entries below prefix (tree name hash mtime size blob_count ∷ entries) out = do
  inner ← below hash (join_path prefix name) out
  flatten_entries below prefix entries inner
flatten_entries below prefix (entry ∷ entries) out =
    flatten_entries below prefix entries (insert (join_path prefix (entry_name entry)) entry out)

-- The loop of `flatten_into_for_push`, where `below` stops at a tree that is not in the store.
unfoldable pub flatten_entries_for_push : Below → Bytes → List TreeEntry → Flat → Walk Flat
unfolding join_path insert entry_name
flatten_entries_for_push below prefix [] out = done out
flatten_entries_for_push below prefix (tree name hash mtime size blob_count ∷ entries) out = do
  let path = join_path prefix name
  inner ← below hash path (insert path (tree name hash mtime size blob_count) out)
  flatten_entries_for_push below prefix entries inner
flatten_entries_for_push below prefix (entry ∷ entries) out =
    flatten_entries_for_push below prefix entries
      (insert (join_path prefix (entry_name entry)) entry out)

-- `if store.exists(child_hash)? { … }`
unfoldable pub if_present : Store → Below → Below
unfolding exists
if_present s below hash path out = if exists s hash then below hash path out else done out

module _ (sha256 : Bytes → Bytes) (from_json : Bytes → Option (List TreeEntry)) where
  unfoldable pub flatten_into : ℕ → Store → Below
  unfolding flatten_entries read_tree
  flatten_into zero s hash prefix out = out_of_fuel
  flatten_into (suc fuel) s hash prefix out = do
    entries ← lift (read_tree sha256 from_json s hash)
    flatten_entries (flatten_into fuel s) prefix entries out

  unfoldable pub flatten_local_into : ℕ → Store → Below
  unfolding flatten_entries if_present read_tree
  flatten_local_into zero s hash prefix out = out_of_fuel
  flatten_local_into (suc fuel) s hash prefix out = do
    entries ← lift (read_tree sha256 from_json s hash)
    flatten_entries (if_present s (flatten_local_into fuel s)) prefix entries out

  unfoldable pub flatten_into_for_push : ℕ → Store → Below
  unfolding flatten_entries_for_push if_present read_tree
  flatten_into_for_push zero s hash prefix out = out_of_fuel
  flatten_into_for_push (suc fuel) s hash prefix out = do
    entries ← lift (read_tree sha256 from_json s hash)
    flatten_entries_for_push (if_present s (flatten_into_for_push fuel s)) prefix entries out

  unfoldable pub flatten_tree_entries : ℕ → Store → Digest → Walk Flat
  unfolding flatten_into
  flatten_tree_entries fuel s root = flatten_into fuel s root [] []

  unfoldable pub flatten_tree_entries_local : ℕ → Store → Digest → Walk Flat
  unfolding flatten_local_into
  flatten_tree_entries_local fuel s root = flatten_local_into fuel s root [] []

  unfoldable pub flatten_tree_entries_for_push : ℕ → Store → Digest → Walk Flat
  unfolding flatten_into_for_push
  flatten_tree_entries_for_push fuel s root = flatten_into_for_push fuel s root [] []

  -- The entry at a path, by the parts of its text.
  abbrev navigate_parts : Store → Digest → List Bytes → Result (Option TreeEntry)
  navigate_parts s root [] = ok none
  navigate_parts s root (name ∷ rest) = navigate_entry sha256 from_json s root name rest

  scoped_entry : ℕ → Store → Bytes → Option TreeEntry → Walk Flat
  unfolding flatten_into insert
  scoped_entry fuel s rel none = done []
  scoped_entry fuel s rel (some (tree name hash mtime size blob_count)) =
      flatten_into fuel s hash rel []
  scoped_entry fuel s rel (some entry) = done (insert rel entry [])

  unfoldable pub flatten_tree_entries_scoped : ℕ → Store → Digest → Bytes → Walk Flat
  unfolding scoped_entry navigate_entry split_path
  flatten_tree_entries_scoped fuel s root rel = do
    found ← lift (navigate_parts s root (split_path rel))
    scoped_entry fuel s rel found

  scoped_entry_for_push : ℕ → Store → Bytes → Option TreeEntry → Walk Flat
  unfolding flatten_into_for_push if_present insert
  scoped_entry_for_push fuel s rel none = done []
  scoped_entry_for_push fuel s rel (some (tree name hash mtime size blob_count)) =
      if_present s (flatten_into_for_push fuel s) hash rel
        (insert rel (tree name hash mtime size blob_count) [])
  scoped_entry_for_push fuel s rel (some entry) = done (insert rel entry [])

  unfoldable pub flatten_tree_entries_scoped_for_push : ℕ → Store → Digest → Bytes → Walk Flat
  unfolding scoped_entry_for_push navigate_entry split_path
  flatten_tree_entries_scoped_for_push fuel s root rel = do
    found ← lift (navigate_parts s root (split_path rel))
    scoped_entry_for_push fuel s rel found
