-- ===== src/Pull/Diff.antt =====
-- `diff_trees` of src/commands/pull.rs: what changed from one tree to another, path by path. The order
-- of insertion stands for the order in which a `HashMap` is visited.
pub mod Frame
pub mod Arms
pub mod Outside
pub mod Apart
pub mod Reported
pub mod Below
pub mod Rounds
pub mod Entries
pub mod Blobs
pub mod Deleted
pub mod Ends
pub mod Finishes
pub mod Replaced
use omemfs.Prelude.{
  ℕ, zero, suc, Bool, true, false, not, ◌&&◌, ◌||◌, List, [], ◌∷◌, Option, none, some, ◌==◌, ltb,
  leb, if◌then◌else◌, any, length,
}
use omemfs.Prelude.Bytes.{Bytes, codes, bytes_eq}
use omemfs.Prelude.Maps.{get, insert}
use omemfs.Object.Digest.{Digest, digest_eq}
use omemfs.Object.Entry.{TreeEntry, blob, tree, symlink, entry_name}
use omemfs.Object.Names.Paths.{join_path}
use omemfs.Trees.Store.{Store}
use omemfs.Trees.Read.{read_tree, tree_contains_git_dir}
use omemfs.Trees.Walk.{Walk, out_of_fuel, failed, done, lift, ◌>>=◌}
use omemfs.Pull.{Diff, DiffEntry, added, modified, deleted, added_empty_dir, added_tree, symlinked}

-- `Option<String>` compared.
unfoldable pub mode_eq : Option Bytes → Option Bytes → Bool
mode_eq none none = true
mode_eq (some a) (some b) = bytes_eq a b
mode_eq _ _ = false

-- What a walk does at a deleted tree: its hash, its path and the result so far.
abbrev pub Mark : Type 0
Mark = Digest → Bytes → Diff → Walk Diff

unfoldable pub mark_deleted_entries : Mark → Bytes → List TreeEntry → Diff → Walk Diff
unfolding join_path insert entry_name
mark_deleted_entries mark prefix [] result = done result
mark_deleted_entries mark prefix (tree name hash mtime size blob_count ∷ entries) result = do
  inner ← mark hash (join_path prefix name) result
  mark_deleted_entries mark prefix entries inner
mark_deleted_entries mark prefix (entry ∷ entries) result =
    mark_deleted_entries mark prefix entries
      (insert (join_path prefix (entry_name entry)) deleted result)

-- `load_all_entries(base_hash)?.into_iter().map(…).collect()`
unfoldable pub by_name : List TreeEntry → List (Bytes × TreeEntry) → List (Bytes × TreeEntry)
unfolding insert entry_name
by_name [] entries = entries
by_name (e ∷ es) entries = by_name es (insert (entry_name e) e entries)

-- `result.extend(other)`
unfoldable pub extend : Diff → Diff → Diff
unfolding insert
extend result [] = result
extend result ((path, entry) ∷ other) = extend (insert path entry result) other

-- The arm of a blob.
unfoldable pub diff_blob :
    Mark → Bytes → Digest → ℕ → Option ℕ → Option Bytes → Option TreeEntry → Diff → Walk Diff
unfolding insert mode_eq digest_eq
diff_blob mark path hash size mtime mode (some (blob _ base_hash _ _ base_mode)) result =
    if not (digest_eq base_hash hash) || not (mode_eq base_mode mode)
    then done (insert path (modified hash size mtime mode) result)
    else done result
diff_blob mark path hash size mtime mode (some (tree _ old_hash _ _ _)) result = do
  inner ← mark old_hash path result
  done (insert path (added hash size mtime mode) inner)
diff_blob mark path hash size mtime mode (some (symlink _ _ _)) result =
    done (insert path (added hash size mtime mode) result)
diff_blob mark path hash size mtime mode none result =
    done (insert path (added hash size mtime mode) result)

-- The arm of a symlink.
unfoldable pub diff_symlink : Mark → Bytes → Bytes → Option ℕ → Option TreeEntry → Diff → Walk Diff
unfolding insert bytes_eq
diff_symlink mark path target mtime (some (symlink _ base_target _)) result =
    if not (bytes_eq base_target target)
    then done (insert path (symlinked target mtime true) result)
    else done result
diff_symlink mark path target mtime (some (tree _ old_hash _ _ _)) result = do
  inner ← mark old_hash path result
  done (insert path (symlinked target mtime true) inner)
diff_symlink mark path target mtime (some (blob _ _ _ _ _)) result =
    done (insert path (symlinked target mtime true) result)
diff_symlink mark path target mtime none result =
    done (insert path (symlinked target mtime false) result)

-- The base to diff a tree against: the hash of a tree of the same name.
unfoldable pub base_tree : Option TreeEntry → Option Digest
base_tree (some (tree _ hash _ _ _)) = some hash
base_tree _ = none

-- A blob or symlink that a tree replaces is deleted.
unfoldable pub delete_replaced : Bytes → Option TreeEntry → Diff → Diff
unfolding insert
delete_replaced path (some (blob _ _ _ _ _)) result = insert path deleted result
delete_replaced path (some (symlink _ _ _)) result = insert path deleted result
delete_replaced path _ result = result

abbrev pub is_none {ℓ} : {A : Type ℓ} → Option A → Bool
is_none none = true
is_none (some _) = false

-- A new directory under which nothing was inserted is recorded itself.
unfoldable pub empty_dir : Bytes → Option Digest → Diff → Diff → Diff
unfolding insert
empty_dir path base before result =
    if is_none base && (length result == length before)
    then insert path added_empty_dir result
    else result

-- The recursive call: the base, the target, the prefix, the git context and the result so far.
abbrev pub Recurse : Type 0
Recurse = Option Digest → Digest → Bytes → Bool → Diff → Walk Diff

-- The arm of a tree.
unfoldable pub diff_tree :
    Recurse
    → ℕ
    → Bool
    → Bool
    → Bytes
    → Digest
    → ℕ
    → Option ℕ
    → ℕ
    → Option TreeEntry
    → Diff
    → Walk Diff
unfolding base_tree delete_replaced empty_dir insert
diff_tree recurse threshold in_git child_in_git path hash size mtime blob_count base result =
    let replaced = delete_replaced path base result in
    let below = (do
      inner ← recurse (base_tree base) hash path child_in_git replaced
      done (empty_dir path (base_tree base) replaced inner)) in
    if is_none (base_tree base) && ltb 0 threshold && leb threshold size && not in_git
    then done (insert path (added_tree hash size mtime blob_count) replaced)
    else below

-- The entries of the base that the target does not have.
unfoldable pub delete_missing :
    Mark → Bytes → List TreeEntry → List (Bytes × TreeEntry) → Diff → Walk Diff
unfolding join_path insert extend entry_name
delete_missing mark prefix target_entries [] result = done result
delete_missing mark prefix target_entries ((name, tree _ hash _ _ _) ∷ base) result =
    let skipped = delete_missing mark prefix target_entries base result in
    let removed = (do
      sub_result ← mark hash (join_path prefix name) []
      delete_missing mark prefix target_entries base (extend result sub_result)) in
    if any (λ e. bytes_eq (entry_name e) name) target_entries then skipped else removed
delete_missing mark prefix target_entries ((name, entry) ∷ base) result =
    let skipped = delete_missing mark prefix target_entries base result in
    let removed =
      delete_missing mark prefix target_entries base
        (insert (join_path prefix name) deleted result) in
    if any (λ e. bytes_eq (entry_name e) name) target_entries then skipped else removed

module _ (sha256 : Bytes → Bytes) (from_json : Bytes → Option (List TreeEntry)) where
  unfoldable pub mark_deleted_tree : ℕ → Store → Mark
  unfolding mark_deleted_entries read_tree
  mark_deleted_tree zero s hash prefix result = out_of_fuel
  mark_deleted_tree (suc fuel) s hash prefix result = do
    entries ← lift (read_tree sha256 from_json s hash)
    mark_deleted_entries (mark_deleted_tree fuel s) prefix entries result

  -- `base_entries`
  unfoldable pub load_base_entries : Store → Option Digest → Walk (List (Bytes × TreeEntry))
  unfolding by_name read_tree
  load_base_entries s none = done []
  load_base_entries s (some base_hash) = do
    entries ← lift (read_tree sha256 from_json s base_hash)
    done (by_name entries [])

  module _ (s : Store) (threshold : ℕ) where
    -- The loop over the target's entries.
    unfoldable pub diff_entries :
        Mark → Recurse → Bytes → Bool → List (Bytes × TreeEntry) → List TreeEntry → Diff → Walk Diff
    unfolding diff_blob diff_tree diff_symlink join_path get tree_contains_git_dir
    diff_entries mark recurse prefix in_git base [] result = done result
    diff_entries mark recurse prefix in_git base (blob name hash mtime size mode ∷ es) result = do
      next ← diff_blob mark (join_path prefix name) hash size mtime mode (get name base) result
      diff_entries mark recurse prefix in_git base es next
    diff_entries mark recurse prefix in_git base (tree name hash mtime size blob_count ∷ es)
          result =
        do
          let child_in_git =
              in_git
              || (bytes_eq name (codes ".git") || tree_contains_git_dir sha256 from_json s hash)
          next ←
              diff_tree recurse threshold in_git child_in_git (join_path prefix name) hash size
                mtime blob_count (get name base) result
          diff_entries mark recurse prefix in_git base es next
    diff_entries mark recurse prefix in_git base (symlink name target mtime ∷ es) result = do
      next ← diff_symlink mark (join_path prefix name) target mtime (get name base) result
      diff_entries mark recurse prefix in_git base es next

    -- `base == Some(target)`
    unfoldable pub same_tree : Option Digest → Digest → Bool
    unfolding digest_eq
    same_tree none target = false
    same_tree (some base_hash) target = digest_eq base_hash target

    unfoldable pub diff_recursive : ℕ → Recurse
    unfolding same_tree load_base_entries diff_entries delete_missing mark_deleted_tree read_tree
    diff_recursive zero base target prefix in_git result = out_of_fuel
    diff_recursive (suc fuel) base target prefix in_git result =
        let mark = mark_deleted_tree fuel s in
        let walk = (do
          target_entries ← lift (read_tree sha256 from_json s target)
          base_entries ← load_base_entries s base
          changed ←
              diff_entries mark (diff_recursive fuel) prefix in_git base_entries target_entries
                result
          delete_missing mark prefix target_entries base_entries changed) in
        if same_tree base target then done result else walk

    unfoldable pub diff_trees : ℕ → Option Digest → Option Digest → Walk Diff
    unfolding diff_recursive mark_deleted_tree
    diff_trees fuel base (some target) = diff_recursive fuel base target [] false []
    diff_trees fuel (some base) none = mark_deleted_tree fuel s base [] []
    diff_trees fuel none none = done []
