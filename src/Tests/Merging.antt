-- ===== src/Tests/Merging.antt =====
-- Merging: the lines of a history file, and the conflicts of a pull.
use omemfs.Prelude.{
  ◌≡◌, ◌↔◌, true, refl, List, [], ◌∷◌, ◌++◌, Option, none, some, if◌then◌else◌, Bool, length,
}
use omemfs.Prelude.Bytes.{Bytes, codes, bytes_eq}
use omemfs.Object.Digest.{Digest, digest_eq, from_bytes, encode_hex, hex_digit}
use omemfs.LineMerge.{DiffOp, equal, insert, Segment, keep, change, split_lines, join_lines}
use omemfs.LineMerge.Lines.{ends_line, join-split_lines}
use omemfs.Prelude.Maps.{get}
use omemfs.Pull.{
  DiffEntry, Diff, added, modified, classify_conflicts, resolve_line_merges, conflicts_with,
  same_content, partition, sort_paths, insert_path,
}
use omemfs.Pull.Decisions.{mem, DistinctPaths}
use omemfs.Pull.Decisions.Classified.{Conflicting, classify_conflicts_lem}
use omemfs.Pull.Decisions.Merged.{Resolves, resolve_line_merges_lem}
use omemfs.Trees.Store.{Store}
use omemfs.Tests.Json.{identity, from_json}

-- A difference of two files that only append: the base, and what follows it.
abbrev appended : List Bytes → List Bytes → List DiffOp
appended base other =
    equal 0 0 (length base) ∷ (insert (length base) (length base) (length other) ∷ [])

abbrev base_file : Bytes
base_file = codes "a\n"

abbrev local_file : Bytes
local_file = codes "a\nb\\\nc\n"

abbrev remote_file : Bytes
remote_file = codes "a\nd"

join-split_lines_example :
    join_lines (split_lines local_file)
    ≡ (if ends_line local_file then local_file else local_file ++ (10 ∷ []))
join-split_lines_example = join-split_lines local_file

abbrev local_segments : List Segment
local_segments =
    keep 0 1 ∷ (change (record { start = 1; end = 2; other_lines = codes "b" ∷ [] }) ∷ [])

abbrev remote_segments : List Segment
remote_segments = change (record { start = 0; end = 2; other_lines = codes "c" ∷ [] }) ∷ []

abbrev one_hash : Digest
one_hash = from_bytes (1 ∷ [])

abbrev other_hash : Digest
other_hash = from_bytes (2 ∷ [])

abbrev remote_changes : Diff
remote_changes =
    (codes "h", modified one_hash 4 none none) ∷ ((codes "new", added one_hash 4 none none) ∷ [])

abbrev local_changes : Diff
local_changes = (codes "h", modified other_hash 6 none none) ∷ []

remote_changes-DistinctPaths : DistinctPaths remote_changes
unfolding get bytes_eq
remote_changes-DistinctPaths = (refl, (refl, tt))

classify_conflicts_lem_example :
    ((mem (codes "h") (classify_conflicts remote_changes local_changes).1 ≡ true) ↔ (
      (entry : DiffEntry) × (get (codes "h") remote_changes ≡ some entry)
      × Conflicting local_changes (codes "h") entry))
    × ((entry : DiffEntry)
        → (get (codes "h") (classify_conflicts remote_changes local_changes).0 ≡ some entry) ↔ (
            (get (codes "h") remote_changes ≡ some entry)
            × ¬ Conflicting local_changes (codes "h") entry))
classify_conflicts_lem_example =
    classify_conflicts_lem remote_changes local_changes (codes "h") remote_changes-DistinctPaths

-- The path that both sides changed is reported, and the other one is applied.
classified :
    classify_conflicts remote_changes local_changes
    ≡ ((codes "new", added one_hash 4 none none) ∷ [], codes "h" ∷ [])
unfolding classify_conflicts partition conflicts_with get bytes_eq same_content digest_eq from_bytes
    encode_hex hex_digit sort_paths insert_path
classified = refl

abbrev blobs : Store
blobs h = some base_file

abbrev working_tree : Bytes → Option Bytes
working_tree path = some local_file

abbrev is_history : Bytes → Bool
is_history path = bytes_eq path (codes "h")

resolve_line_merges_lem_example :
    ((bytes : Bytes)
      → (get
            (codes "h")
            (resolve_line_merges identity from_json appended working_tree blobs none is_history
              remote_changes local_changes
              (codes "h" ∷ [])).0
          ≡ some bytes)
        ↔ ((mem (codes "h") (codes "h" ∷ []) ≡ true)
            × Resolves identity from_json appended working_tree blobs none is_history remote_changes
                local_changes
                (codes "h")
                bytes))
    × ((mem
            (codes "h")
            (resolve_line_merges identity from_json appended working_tree blobs none is_history
              remote_changes local_changes
              (codes "h" ∷ [])).1
          ≡ true)
        ↔ ((mem (codes "h") (codes "h" ∷ []) ≡ true)
            × ((bytes : Bytes)
                → ¬ Resolves identity from_json appended working_tree blobs none is_history
                    remote_changes local_changes
                    (codes "h")
                    bytes)))
resolve_line_merges_lem_example =
    resolve_line_merges_lem identity from_json appended working_tree blobs none is_history
      remote_changes local_changes (codes "h" ∷ []) (codes "h")
