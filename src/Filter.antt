-- ===== src/Filter.antt =====
-- src/filter.rs: the patterns of `.omemfs-filter` files, and which paths they select. A text is its
-- list of characters.
pub mod Glob
pub mod Spread
pub mod Wildcard
pub mod Selected
pub mod Files
use omemfs.Prelude.{
  ℕ, ◌+◌, Bool, true, false, not, ◌&&◌, ◌||◌, List, [], ◌∷◌, ◌++◌, Option, none, some, ◌==◌, leb,
  if◌then◌else◌, is_empty, drop,
}
use omemfs.Prelude.Bytes.{Bytes, codes, bytes_eq, strip_prefix, starts_with}
use omemfs.Object.Names.{has_char}
use omemfs.LineMerge.{phys_lines}
use omemfs.Filter.Glob.{glob_match}

-- `char::is_whitespace`
unfoldable pub is_whitespace : ℕ → Bool
is_whitespace c =
    (leb 9 c && leb c 13)
    || (c == 0x20)
    || (c == 0x85)
    || (c == 0xA0)
    || (c == 0x1680)
    || (leb 0x2000 c && leb c 0x200A)
    || (c == 0x2028)
    || (c == 0x2029)
    || (c == 0x202F)
    || (c == 0x205F)
    || (c == 0x3000)

-- `s.trim_end_matches(drops)`
unfoldable pub trim_end_matches : (ℕ → Bool) → Bytes → Bytes
trim_end_matches drops [] = []
trim_end_matches drops (c ∷ s) =
    let rest = trim_end_matches drops s in if is_empty rest && drops c then [] else c ∷ rest

unfoldable pub trim_start : Bytes → Bytes
trim_start [] = []
trim_start (c ∷ s) = let rest = trim_start s in if is_whitespace c then rest else c ∷ s

unfoldable pub trim_end : Bytes → Bytes
unfolding trim_end_matches is_whitespace
trim_end s = trim_end_matches is_whitespace s

unfoldable pub trim : Bytes → Bytes
unfolding trim_start trim_end
trim s = trim_start (trim_end s)

-- `content.lines()`: a carriage return before a newline goes with it.
unfoldable pub drop_cr : Bytes → Bytes
drop_cr [] = []
drop_cr (c ∷ s) = let rest = drop_cr s in if (c == 13) && starts_line_end s then rest else c ∷ rest
  where
    starts_line_end : Bytes → Bool
    starts_line_end [] = false
    starts_line_end (d ∷ _) = d == 10

unfoldable pub text_lines : Bytes → List Bytes
unfolding drop_cr phys_lines
text_lines content = phys_lines (drop_cr content)

pub record Pattern : Type 0 where
  pub text : Bytes
  pub anchored : Bool
  pub negated : Bool

-- The sign and the rest of a line: `\#` and `\!` stand for the character itself.
unfoldable pub split_sign : Bytes → Bool × Bytes
unfolding starts_with strip_prefix
split_sign line =
    if starts_with line (codes "\\#") || starts_with line (codes "\\!")
    then (false, drop 1 line)
    else elim (strip_prefix (codes "!") line) [ some rest ↦ (true, rest) | none ↦ (false, line) ]

unfoldable pub pattern_of : Bool → Bytes → Option Pattern
unfolding has_char starts_with
pattern_of negated rest =
    if is_empty rest
    then none
    else if has_char b'?' rest || has_char b'[' rest
    then none
    else some (record {
      text = if starts_with rest (codes "/") then drop 1 rest else rest;
      anchored = starts_with rest (codes "/");
      negated = negated;
    })

unfoldable pub parse_pattern : Bytes → Option Pattern
unfolding trim_end split_sign pattern_of trim_end_matches
parse_pattern raw =
    let line = trim_end raw in
    let (negated, rest) = split_sign line in
    if is_empty line || starts_with line (codes "#")
    then none
    else pattern_of negated (trim_end_matches (λ c. c == b'/') rest)

-- The loop over the text after each slash.
unfoldable pub matches_below : Bytes → Bytes → Bool
unfolding glob_match
matches_below text [] = false
matches_below text (c ∷ rest) =
    let deeper = matches_below text rest in
    if c == b'/' then glob_match text rest || deeper else deeper

unfoldable pub pattern_matches : Pattern → Bytes → Bool
unfolding glob_match matches_below starts_with
pattern_matches pattern rel_path =
    if pattern.anchored
    then glob_match pattern.text rel_path
    else if starts_with pattern.text (codes "**/")
    then glob_match (drop 3 pattern.text) rel_path || matches_below (drop 3 pattern.text) rel_path
    else glob_match pattern.text rel_path || matches_below pattern.text rel_path

abbrev pub Section : Type 0
Section = List Pattern

-- The loop of `Section::matches`.
unfoldable pub matches_from : Bool → Section → Bytes → Bool
unfolding pattern_matches
matches_from matched [] rel_path = matched
matches_from matched (p ∷ patterns) rel_path =
    matches_from (if pattern_matches p rel_path then not p.negated else matched) patterns rel_path

unfoldable pub section_matches : Section → Bytes → Bool
unfolding matches_from
section_matches patterns rel_path = matches_from false patterns rel_path

pub record FilterFile : Type 0 where
  pub ignore : Section
  pub aggregate : Section
  pub line_merge : Section

pub data CurrentSection : Type 0 where
  in_ignore in_aggregate in_line_merge : CurrentSection

-- A section header.
unfoldable pub section_header : Bytes → Option CurrentSection
section_header trimmed =
    if bytes_eq trimmed (codes "[ignore]")
    then some in_ignore
    else if bytes_eq trimmed (codes "[aggregate]")
    then some in_aggregate
    else if bytes_eq trimmed (codes "[line_merge]")
    then some in_line_merge
    else none

unfoldable pub push_pattern : CurrentSection → Pattern → FilterFile → FilterFile
push_pattern in_ignore pat f = record f { ignore = f.ignore ++ (pat ∷ []) }
push_pattern in_aggregate pat f = record f { aggregate = f.aggregate ++ (pat ∷ []) }
push_pattern in_line_merge pat f = record f { line_merge = f.line_merge ++ (pat ∷ []) }

-- One round of the loop of `FilterFile::parse`.
unfoldable pub parse_line : Bytes → CurrentSection × FilterFile → CurrentSection × FilterFile
unfolding section_header trim push_pattern parse_pattern
parse_line line (current, f) = elim (section_header (trim line)) [
  | some next ↦ (next, f)
  | none ↦ elim (parse_pattern line) [
    | some pat ↦ (current, push_pattern current pat f)
    | none ↦ (current, f)
  ]
]

unfoldable pub parse_lines : List Bytes → CurrentSection × FilterFile → CurrentSection × FilterFile
unfolding parse_line
parse_lines [] state = state
parse_lines (line ∷ lines) state = parse_lines lines (parse_line line state)

abbrev pub no_patterns : FilterFile
no_patterns = record { ignore = []; aggregate = []; line_merge = [] }

unfoldable pub parse_file : Bytes → FilterFile
unfolding text_lines parse_lines
parse_file content = (parse_lines (text_lines content) (in_ignore, no_patterns)).1

-- Each file with the path of its directory.
abbrev pub FilterSet : Type 0
FilterSet = List (Bytes × FilterFile)

-- The part of a path below a directory.
unfoldable pub path_in_scope : Bytes → Bytes → Option Bytes
unfolding strip_prefix
path_in_scope dir_prefix rel_path =
    if is_empty dir_prefix then some rel_path else strip_prefix (dir_prefix ++ codes "/") rel_path

unfoldable pub test : (FilterFile → Bytes → Bool) → FilterSet → Bytes → Bool
unfolding path_in_scope
test check [] rel_path = false
test check ((dir_prefix, ff) ∷ files) rel_path =
    let later = test check files rel_path in
    elim (path_in_scope dir_prefix rel_path) [
      | none ↦ later
      | some path ↦ if check ff path then true else later
    ]

unfoldable pub is_ignored : FilterSet → Bytes → Bool
unfolding test section_matches
is_ignored files rel_path = test (λ ff path. section_matches ff.ignore path) files rel_path

unfoldable pub is_aggregated : FilterSet → Bytes → Bool
unfolding test section_matches
is_aggregated files rel_path = test (λ ff path. section_matches ff.aggregate path) files rel_path

unfoldable pub is_line_merge : FilterSet → Bytes → Bool
unfolding test section_matches
is_line_merge files rel_path = test (λ ff path. section_matches ff.line_merge path) files rel_path
