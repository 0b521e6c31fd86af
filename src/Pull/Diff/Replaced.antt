-- ===== src/Pull/Diff/Replaced.antt =====
-- What `diff_recursive` of src/commands/pull.rs reports of an empty directory.
use omemfs.Prelude.{ℕ, suc, ◌≡◌, refl, ap, Bool, List, [], Option, none, some, ==_refl, length}
use omemfs.Prelude.Bytes.{Bytes}
use omemfs.Prelude.Errors.{ok}
use omemfs.Prelude.Maps.{insert, insert-insert}
use omemfs.Object.Digest.{Digest}
use omemfs.Object.Entry.{TreeEntry, blob, tree, symlink}
use omemfs.Trees.Store.{Store}
use omemfs.Trees.Read.{read_tree}
use omemfs.Trees.Walk.{done}
use omemfs.Pull.{Diff, deleted, added_empty_dir}
use omemfs.Pull.Diff.{
  base_tree, delete_replaced, empty_dir, diff_tree, same_tree, load_base_entries, diff_entries,
  delete_missing, diff_recursive,
}

replaced_once :
    (path : Bytes) (old : Option TreeEntry) (result : Diff)
    → insert path added_empty_dir (delete_replaced path old result)
      ≡ insert path added_empty_dir result
unfolding delete_replaced
replaced_once path none result = refl
replaced_once path (some (tree n d m z c)) result = refl
replaced_once path (some (blob n d m z o)) result =
    insert-insert path deleted added_empty_dir result
replaced_once path (some (symlink n t m)) result = insert-insert path deleted added_empty_dir result

module _ (sha256 : Bytes → Bytes) (from_json : Bytes → Option (List TreeEntry)) (s : Store) where
  -- An empty tree without a base adds nothing.
  diff_recursive-empty :
      (fuel : ℕ) (hash : Digest) (path : Bytes) (in_git : Bool) (result : Diff)
      → read_tree sha256 from_json s hash ≡ ok []
      → diff_recursive sha256 from_json s 0 (suc fuel) none hash path in_git result ≡ done result
  unfolding diff_recursive same_tree load_base_entries diff_entries delete_missing
  diff_recursive-empty fuel hash path in_git result reads = rw reads refl

  -- Without a stub threshold, a directory that reads as empty, where the base has no directory,
  -- adds one entry to the diff: an added empty directory at its path. It is the same whether the
  -- base has nothing there, a blob or a symlink: the deletion of the old entry is overwritten.
  pub diff_tree-empty :
      (fuel : ℕ) (in_git child_in_git : Bool) (path : Bytes) (hash : Digest) (size : ℕ)
      (mtime : Option ℕ) (blob_count : ℕ) (old : Option TreeEntry) (result : Diff)
      → base_tree old ≡ none
      → read_tree sha256 from_json s hash ≡ ok []
      → diff_tree
          (diff_recursive sha256 from_json s 0 (suc fuel))
          0
          in_git
          child_in_git
          path
          hash
          size
          mtime
          blob_count
          old
          result
        ≡ done (insert path added_empty_dir result)
  unfolding diff_tree empty_dir
  diff_tree-empty fuel in_git child_in_git path hash size mtime blob_count old result b reads =
      rw
        (
          b,
          diff_recursive-empty fuel hash path child_in_git (delete_replaced path old result) reads,
          ==_refl (length (delete_replaced path old result)),
        )
        (ap done (replaced_once path old result))
