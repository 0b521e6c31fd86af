-- ===== src/Pull.antt =====
-- The decisions of src/commands/pull.rs: what the remote's changes and the local ones conflict in, and
-- which of the conflicts a line merge resolves. A `HashMap` is an association list.
pub mod Decisions
pub mod Diff
use omemfs.Prelude.{
  ℕ, Bool, true, false, not, ◌&&◌, List, [], ◌∷◌, ◌++◌, Option, none, some, if◌then◌else◌, any,
  is_empty, filter,
}
use omemfs.Prelude.Bytes.{Bytes, codes, bytes_eq, bytes_lt, strip_prefix}
use omemfs.Prelude.Maps.{get}
use omemfs.Prelude.Options.{◌>>=◌}
use omemfs.Prelude.Errors.{Error, Result, ok, err}
use omemfs.Object.Digest.{Digest, digest_eq}
use omemfs.Object.Entry.{TreeEntry}
use omemfs.Object.Names.Paths.{split_path}
use omemfs.Trees.Store.{Store}
use omemfs.Trees.Read.{navigate}
use omemfs.Chunks.{read_blob_bytes}
use omemfs.LineMerge.{DiffOp}
use omemfs.LineMerge.Merge.{MergeOutcome, clean, conflict, merge}

pub data DiffEntry : Type 0 where
  added : (hash : Digest) (size : ℕ) (mtime : Option ℕ) (mode : Option Bytes) → DiffEntry
  modified : (hash : Digest) (size : ℕ) (mtime : Option ℕ) (mode : Option Bytes) → DiffEntry
  deleted : DiffEntry
  added_empty_dir : DiffEntry
  added_tree : (hash : Digest) (size : ℕ) (mtime : Option ℕ) (blob_count : ℕ) → DiffEntry
  symlinked : (target : Bytes) (mtime : Option ℕ) (was_present : Bool) → DiffEntry

-- `DiffEntry::label`
unfoldable pub label : DiffEntry → Bytes
label (added hash size mtime mode) = codes "added"
label (modified hash size mtime mode) = codes "modified"
label deleted = codes "deleted"
label added_empty_dir = codes "added"
label (added_tree hash size mtime blob_count) = codes "added"
label (symlinked target mtime was_present) = if was_present then codes "modified" else codes "added"

abbrev pub Diff : Type 0
Diff = List (Bytes × DiffEntry)

unfoldable pub same_content : DiffEntry → DiffEntry → Bool
same_content (added ha _ _ _) (added hb _ _ _) = digest_eq ha hb
same_content (added ha _ _ _) (modified hb _ _ _) = digest_eq ha hb
same_content (modified ha _ _ _) (added hb _ _ _) = digest_eq ha hb
same_content (modified ha _ _ _) (modified hb _ _ _) = digest_eq ha hb
same_content deleted deleted = true
same_content added_empty_dir added_empty_dir = true
same_content (symlinked ta _ _) (symlinked tb _ _) = bytes_eq ta tb
same_content _ _ = false

unfoldable pub is_blob_change : DiffEntry → Bool
is_blob_change (added hash size mtime mode) = true
is_blob_change (modified hash size mtime mode) = true
is_blob_change _ = false

abbrev is_added_tree : DiffEntry → Bool
is_added_tree (added_tree hash size mtime blob_count) = true
is_added_tree _ = false

-- `rest.split('/').next() != Some(".git")`, for what follows the tree's path and a slash.
unfoldable pub outside_git : Option Bytes → Bool
outside_git none = false
outside_git (some rest) = elim (split_path rest) [
  | [] ↦ true
  | first ∷ names ↦ not (bytes_eq first (codes ".git"))
]

unfoldable pub is_local_change_under_added_tree : Bytes → Bytes → Bool
unfolding outside_git
is_local_change_under_added_tree tree_path local_path =
    outside_git (do r ← strip_prefix tree_path local_path; strip_prefix (codes "/") r)

-- The test of the loop of `classify_conflicts`, on what the local side has at the path.
unfoldable pub conflicts_with : Diff → Bytes → DiffEntry → Option DiffEntry → Bool
conflicts_with local_diff path remote_entry (some local_entry) =
    not (same_content remote_entry local_entry)
conflicts_with local_diff path remote_entry none =
    is_added_tree remote_entry && any (λ l. is_local_change_under_added_tree path l.0) local_diff

-- `conflicts.sort()`
unfoldable pub insert_path : Bytes → List Bytes → List Bytes
insert_path p [] = p ∷ []
insert_path p (q ∷ qs) =
    let rest = insert_path p qs in if bytes_lt q p then q ∷ rest else p ∷ (q ∷ qs)

unfoldable pub sort_paths : List Bytes → List Bytes
sort_paths [] = []
sort_paths (p ∷ ps) = insert_path p (sort_paths ps)

-- The loop, before the sort: what is applied, and what conflicts.
unfoldable pub partition : Diff → Diff → Diff × List Bytes
unfolding get conflicts_with
partition [] local_diff = ([], [])
partition ((path, remote_entry) ∷ remote_diff) local_diff =
    let rest = partition remote_diff local_diff in
    if conflicts_with local_diff path remote_entry (get path local_diff)
    then (rest.0, path ∷ rest.1)
    else ((path, remote_entry) ∷ rest.0, rest.1)

unfoldable pub classify_conflicts : Diff → Diff → Diff × List Bytes
classify_conflicts remote_diff local_diff =
    let parts = partition remote_diff local_diff in (parts.0, sort_paths parts.1)

-- The hash of the blob that a change writes.
unfoldable pub blob_of : DiffEntry → Option Digest
blob_of (added hash size mtime mode) = some hash
blob_of (modified hash size mtime mode) = some hash
blob_of _ = none

abbrev pub to_option {ℓ} : {A : Type ℓ} → Result A → Option A
to_option (ok a) = some a
to_option (err e) = none

abbrev pub merged_bytes : MergeOutcome → Option Bytes
merged_bytes (clean bytes) = some bytes
merged_bytes conflict = none

-- One path of the loop of `resolve_line_merges`, with what the attempt gave.
unfoldable pub settle :
    Bytes → Option Bytes → List (Bytes × Bytes) × List Bytes → List (Bytes × Bytes) × List Bytes
settle path none rest = (rest.0, path ∷ rest.1)
settle path (some bytes) rest = ((path, bytes) ∷ rest.0, rest.1)

-- `file` gives the bytes of a regular file of the working tree, `none` for anything else.
module _ (sha256 : Bytes → Bytes) (from_json : Bytes → Option (List TreeEntry))
    (capture_diff : List Bytes → List Bytes → List DiffOp) (file : Bytes → Option Bytes)
    (lazy : Store) (base_root : Option Digest) where
  unfoldable pub base_blob : Option Digest → Option Bytes
  base_blob none = some []
  base_blob (some base_hash) = to_option (read_blob_bytes lazy base_hash)

  -- The bytes at the base, empty where the path has no entry there.
  unfoldable pub base_bytes : Bytes → Option Digest → Option Bytes
  unfolding base_blob
  base_bytes path none = some []
  base_bytes path (some root) = do
    found ←
        to_option
          (navigate sha256 from_json lazy root (filter (λ n. not (is_empty n)) (split_path path)))
    base_blob found

  unfoldable pub try_line_merge_one : Bytes → DiffEntry → Option Bytes
  unfolding base_bytes
  try_line_merge_one path remote_entry = do
    local ← file path
    remote_hash ← blob_of remote_entry
    remote ← to_option (read_blob_bytes lazy remote_hash)
    base ← base_bytes path base_root
    merged_bytes (merge capture_diff base local remote)

  -- Whether both sides have a blob at the path, and the filter names it for line merges.
  abbrev pub is_candidate : (Bytes → Bool) → Option DiffEntry → Option DiffEntry → Bytes → Bool
  is_candidate is_line_merge (some r) (some l) path =
      is_blob_change r && (is_blob_change l && is_line_merge path)
  is_candidate is_line_merge _ _ path = false

  unfoldable pub attempt : (Bytes → Bool) → Diff → Diff → Bytes → Option Bytes
  unfolding try_line_merge_one
  attempt is_line_merge remote_diff local_diff path =
      if is_candidate is_line_merge (get path remote_diff) (get path local_diff) path
      then (do r ← get path remote_diff; try_line_merge_one path r)
      else none

  -- `resolve_line_merges`: the merges, each with its path, and the conflicts that remain.
  unfoldable pub resolve_line_merges :
      (Bytes → Bool) → Diff → Diff → List Bytes → List (Bytes × Bytes) × List Bytes
  resolve_line_merges is_line_merge remote_diff local_diff [] = ([], [])
  resolve_line_merges is_line_merge remote_diff local_diff (path ∷ conflicts) =
      let rest = resolve_line_merges is_line_merge remote_diff local_diff conflicts in
      settle path (attempt is_line_merge remote_diff local_diff path) rest
