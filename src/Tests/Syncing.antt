-- ===== src/Tests/Syncing.antt =====
-- Syncing: filters, flattened trees, tree diffs and the pointer.
use omemfs.Prelude.{◌≡◌, refl, ◌↔◌, true, false, List, [], ◌∷◌, none, some, if◌then◌else◌}
use omemfs.Prelude.Bytes.{Bytes, codes, bytes_eq, starts_with}
use omemfs.Prelude.Errors.{ok}
use omemfs.Prelude.Maps.{insert}
use omemfs.Object.Digest.{Digest, digest_eq, compute}
use omemfs.Object.Names.{has_char}
use omemfs.Trees.Store.{Store, store_read}
use omemfs.Trees.Read.{read_tree, deserialise_tree, validate_names, parse_json}
use omemfs.Trees.Change.Stored.{digest_eq_iff}
use omemfs.Trees.Walk.{done, Finishes, IsDeep}
use omemfs.Trees.Flatten.{flatten_tree_entries}
use omemfs.Filter.{Pattern, FilterSet, pattern_matches, section_matches, is_ignored, matches_below}
use omemfs.Filter.Glob.{glob_match}
use omemfs.Filter.Wildcard.{glob_match_lem}
use omemfs.Filter.Spread.{Globs}
use omemfs.Filter.Selected.{section_matches_lem}
use omemfs.Filter.Files.{SomeFile, is_ignored_lem}
use omemfs.Pull.{added_empty_dir}
use omemfs.Pull.Diff.{diff_tree, diff_trees, diff_recursive, base_tree}
use omemfs.Pull.Diff.Deleted.{deletes, diff_trees-absent}
use omemfs.Pull.Diff.Finishes.{diff_trees-Finishes}
use omemfs.Pull.Diff.Replaced.{diff_tree-empty}
use omemfs.Pack.RootPointer.Runs.{
  World, Event, reads, writes, run, applied, apply_all, run-apply_all,
}
use omemfs.Tests.Json.{identity, to_json, from_json, faithful}
use omemfs.Tests.Trees.{note, one_tree, one_tree_read, tree_bytes}

glob_match_lem_example :
    (glob_match (codes "a*.rs") (codes "abc.rs") ≡ true) ↔ Globs (codes "a*.rs") (codes "abc.rs")
glob_match_lem_example = glob_match_lem (codes "a*.rs") (codes "abc.rs")

-- Logs are selected, but not the one to keep.
abbrev logs : Pattern
logs = record { text = codes "*.log"; anchored = false; negated = false }

abbrev kept : Pattern
kept = record { text = codes "keep.log"; anchored = false; negated = true }

kept_elsewhere : pattern_matches kept (codes "d/a.log") ≡ false
unfolding pattern_matches matches_below glob_match has_char bytes_eq starts_with
kept_elsewhere = refl

section_matches_lem_example :
    (pattern_matches logs (codes "d/a.log") ≡ true
      → section_matches (kept ∷ (logs ∷ (kept ∷ []))) (codes "d/a.log") ≡ true)
    × (section_matches (kept ∷ []) (codes "d/a.log") ≡ false)
section_matches_lem_example =
    section_matches_lem (kept ∷ []) logs (kept ∷ []) (codes "d/a.log") (kept_elsewhere, tt)

abbrev filters : FilterSet
filters =
    ([], record { ignore = logs ∷ []; aggregate = []; line_merge = [] })
    ∷ ((codes "d", record { ignore = kept ∷ []; aggregate = []; line_merge = [] }) ∷ [])

is_ignored_lem_example :
    (is_ignored filters (codes "d/a.log") ≡ true)
    ↔ SomeFile (λ ff below. section_matches ff.ignore below) filters (codes "d/a.log")
is_ignored_lem_example = is_ignored_lem filters (codes "d/a.log")

abbrev pub root_hash : Digest
root_hash = compute identity tree_bytes

diff_trees-absent_example :
    diff_trees identity from_json one_tree 0 2 (some root_hash) none
    ≡ deletes (flatten_tree_entries identity from_json 2 one_tree root_hash)
diff_trees-absent_example = diff_trees-absent identity from_json one_tree 0 2 root_hash

one_tree-IsDeep : IsDeep identity from_json 2 one_tree root_hash
unfolding IsDeep
one_tree-IsDeep entries reads_as = let e : entries ≡ note ∷ [] = cc one_tree_read in rw e (tt, tt)

diff_trees-Finishes_example :
    Finishes (diff_trees identity from_json one_tree 0 2 none (some root_hash))
diff_trees-Finishes_example =
    diff_trees-Finishes identity from_json one_tree 0 2 none (some root_hash) tt one_tree-IsDeep

-- A store of one empty tree.
abbrev empty_tree_bytes : Bytes
empty_tree_bytes = 0xED ∷ (0xF1 ∷ to_json [])

abbrev empty_tree : Store
empty_tree h =
    if digest_eq (compute identity empty_tree_bytes) h then some empty_tree_bytes else none

empty_tree_read :
    read_tree identity from_json empty_tree (compute identity empty_tree_bytes) ≡ ok []
unfolding read_tree store_read deserialise_tree starts_with validate_names
empty_tree_read =
    let h = compute identity empty_tree_bytes in
    rw ((digest_eq_iff h h).1, store_read, parse_json, faithful.parses [])
      (rw ((digest_eq_iff h h).1) refl)

diff_tree-empty_example :
    diff_tree
      (diff_recursive identity from_json empty_tree 0 1)
      0
      false
      false
      (codes "b")
      (compute identity empty_tree_bytes)
      0
      none
      0
      (some note)
      []
    ≡ done (insert (codes "b") added_empty_dir [])
unfolding base_tree
diff_tree-empty_example =
    diff_tree-empty identity from_json empty_tree 0 false false (codes "b")
      (compute identity empty_tree_bytes) 0 none 0 (some note) [] refl empty_tree_read

-- Two writers read the same pointer, and both write.
abbrev fresh_world : World
fresh_world = record { pointer = some (1 ∷ []); seen = λ w. none }

abbrev race : List Event
race = reads 0 ∷ (reads 1 ∷ (writes 0 (λ p. 2 ∷ []) ∷ (writes 1 (λ p. 3 ∷ []) ∷ [])))

run-apply_all_example :
    (run race fresh_world).pointer ≡ apply_all (applied race fresh_world) (some (1 ∷ []))
run-apply_all_example = run-apply_all race fresh_world (λ w b t e. cc)
