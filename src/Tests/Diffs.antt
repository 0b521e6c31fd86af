-- ===== src/Tests/Diffs.antt =====
-- Diffs of a tree of one blob and of a tree of one symlink against nothing.
use omemfs.Prelude.{◌≡◌, refl, [], ◌∷◌, none, some, false, if◌then◌else◌}
use omemfs.Prelude.Bytes.{Bytes, codes, bytes_eq, starts_with}
use omemfs.Prelude.Errors.{ok}
use omemfs.Object.Digest.{digest_eq, compute}
use omemfs.Trees.Store.{Store, store_read}
use omemfs.Trees.Read.{read_tree, deserialise_tree, validate_names, parse_json}
use omemfs.Trees.Change.Stored.{Valid, digest_eq_iff}
use omemfs.Prelude.Maps.{get, insert}
use omemfs.Object.Entry.{entry_name}
use omemfs.Object.Entry.Sorting.{find_name}
use omemfs.Object.Names.Paths.{join_path, path_of}
use omemfs.Trees.Walk.{done}
use omemfs.Pull.{Diff, added, symlinked}
use omemfs.Pull.Diff.{
  diff_trees, diff_recursive, same_tree, load_base_entries, diff_entries, diff_blob, diff_symlink,
  delete_missing,
}
use omemfs.Pull.Diff.Reported.{Leads, Has}
use omemfs.Pull.Diff.Blobs.{diff_trees-blob, diff_trees-symlink}
use omemfs.Tests.Json.{identity, to_json, from_json, faithful}
use omemfs.Tests.Trees.{note, note_name, link, link_name, some_hash, one_tree, one_tree_read}
use omemfs.Tests.Syncing.{root_hash}

abbrev whole : Diff
whole = (codes "b", added some_hash 4 none none) ∷ []

one_tree_diff : diff_trees identity from_json one_tree 0 2 none (some root_hash) ≡ done whole
unfolding diff_trees diff_recursive same_tree load_base_entries diff_entries diff_blob
    delete_missing get insert join_path
one_tree_diff = rw one_tree_read refl

one_tree-Leads : Leads identity from_json one_tree root_hash (codes "b") [] note
unfolding Leads find_name entry_name bytes_eq
one_tree-Leads = (note ∷ [], one_tree_read, (refl, tt), refl)

nothing-Has : Has identity from_json one_tree none (codes "b") [] none
unfolding Has
nothing-Has = refl

diff_trees-blob_example : get (codes "b") whole ≡ some (added some_hash 4 none none)
unfolding path_of join_path
diff_trees-blob_example =
    diff_trees-blob identity from_json one_tree (codes "b") some_hash none 4 none none 2 none
      root_hash (codes "b") [] whole (note_name, tt) one_tree-Leads nothing-Has one_tree_diff

-- A store of one tree with one symlink.
abbrev link_bytes : Bytes
link_bytes = 0xED ∷ (0xF1 ∷ to_json (link ∷ []))

abbrev link_tree : Store
link_tree h = if digest_eq (compute identity link_bytes) h then some link_bytes else none

link-Valid : Valid (link ∷ [])
unfolding validate_names entry_name
link-Valid = rw link_name refl

link_tree_read :
    read_tree identity from_json link_tree (compute identity link_bytes) ≡ ok (link ∷ [])
unfolding read_tree store_read deserialise_tree starts_with
link_tree_read =
    let h = compute identity link_bytes in
    rw ((digest_eq_iff h h).1, store_read, parse_json, faithful.parses (link ∷ []), link-Valid)
      (rw ((digest_eq_iff h h).1) refl)

abbrev linked : Diff
linked = (codes "a", symlinked (codes "b") (some 7) false) ∷ []

link_tree_diff :
    diff_trees identity from_json link_tree 0 2 none (some (compute identity link_bytes))
    ≡ done linked
unfolding diff_trees diff_recursive same_tree load_base_entries diff_entries diff_symlink
    delete_missing get insert join_path
link_tree_diff = rw link_tree_read refl

link_tree-Leads :
    Leads identity from_json link_tree (compute identity link_bytes) (codes "a") [] link
unfolding Leads find_name entry_name bytes_eq
link_tree-Leads = (link ∷ [], link_tree_read, (refl, tt), refl)

link_tree-Has : Has identity from_json link_tree none (codes "a") [] none
unfolding Has
link_tree-Has = refl

diff_trees-symlink_example : get (codes "a") linked ≡ some (symlinked (codes "b") (some 7) false)
unfolding path_of join_path
diff_trees-symlink_example =
    diff_trees-symlink identity from_json link_tree (codes "a") (codes "b") (some 7) none 2 none
      (compute identity link_bytes) (codes "a") [] linked (link_name, tt) link_tree-Leads
      link_tree-Has link_tree_diff
