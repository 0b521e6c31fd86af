-- ===== src/Object/Entry.antt =====
-- Tree entries of src/object.rs and the aggregates over them. A `DateTime<Utc>` is used only by its
-- order, and stands as the distance in nanoseconds from the earliest one.
pub mod Sorting
pub mod Stable
use omemfs.Prelude.{
  ℕ, ◌+◌, ◌%◌, ◌^◌, Bool, true, false, List, [], ◌∷◌, Option, none, some, max, if◌then◌else◌,
}
use omemfs.Prelude.Bytes.{Bytes, bytes_lt}
use omemfs.Object.Digest.{Digest}

pub data TreeEntry : Type 0 where
  blob : Bytes → Digest → Option ℕ → ℕ → Option Bytes → TreeEntry
  tree : Bytes → Digest → Option ℕ → ℕ → ℕ → TreeEntry
  symlink : Bytes → Bytes → Option ℕ → TreeEntry

unfoldable pub entry_name : TreeEntry → Bytes
entry_name (blob name hash mtime size mode) = name
entry_name (tree name hash mtime size blob_count) = name
entry_name (symlink name target mtime) = name

unfoldable pub entry_hash : TreeEntry → Option Digest
entry_hash (blob name hash mtime size mode) = some hash
entry_hash (tree name hash mtime size blob_count) = some hash
entry_hash (symlink name target mtime) = none

unfoldable pub entry_size : TreeEntry → ℕ
entry_size (blob name hash mtime size mode) = size
entry_size (tree name hash mtime size blob_count) = size
entry_size (symlink name target mtime) = 0

unfoldable pub entry_blob_count : TreeEntry → ℕ
entry_blob_count (blob name hash mtime size mode) = 1
entry_blob_count (tree name hash mtime size blob_count) = blob_count
entry_blob_count (symlink name target mtime) = 1

unfoldable pub entry_mtime : TreeEntry → Option ℕ
entry_mtime (blob name hash mtime size mode) = mtime
entry_mtime (tree name hash mtime size blob_count) = mtime
entry_mtime (symlink name target mtime) = mtime

-- A stable sort: an entry goes behind those with the same name.
unfoldable pub insert_entry : TreeEntry → List TreeEntry → List TreeEntry
insert_entry e [] = e ∷ []
insert_entry e (f ∷ fs) =
    if bytes_lt (entry_name e) (entry_name f) then e ∷ (f ∷ fs) else f ∷ insert_entry e fs

unfoldable pub sort_onto : List TreeEntry → List TreeEntry → List TreeEntry
sort_onto [] sorted = sorted
sort_onto (e ∷ es) sorted = sort_onto es (insert_entry e sorted)

-- `v.sort_by(|a, b| a.name().cmp(b.name()))`
unfoldable pub sorted_entries : List TreeEntry → List TreeEntry
unfolding sort_onto insert_entry
sorted_entries entries = sort_onto entries []

later : Option ℕ → Option ℕ → Option ℕ
later none b = b
later (some a) none = some a
later (some a) (some b) = some (max a b)

-- `filter_map(|e| e.mtime()).max()`
unfoldable pub aggregate_mtime : List TreeEntry → Option ℕ
unfolding later
aggregate_mtime [] = none
aggregate_mtime (e ∷ es) = later (entry_mtime e) (aggregate_mtime es)

-- `sum()` of u64 values, which wraps in a release build.
unfoldable pub aggregate_size : List TreeEntry → ℕ
aggregate_size [] = 0
aggregate_size (e ∷ es) = (entry_size e + aggregate_size es) % 2 ^ 64

unfoldable pub aggregate_blob_count : List TreeEntry → ℕ
aggregate_blob_count [] = 0
aggregate_blob_count (e ∷ es) = (entry_blob_count e + aggregate_blob_count es) % 2 ^ 64
