-- ===== src/LineMerge/Merge.antt =====
-- `parse_extended_history_timestamp` and `merge` of src/line_merge.rs. The Myers diff of the `similar`
-- crate is a parameter.
pub mod Content
use omemfs.Prelude.{
  ℕ, zero, suc, ◌+◌, ◌-◌, ◌*◌, ◌^◌, Bool, true, false, not, ◌&&◌, ◌||◌, List, [], ◌∷◌, ◌++◌, Option,
  none, some, ltb, leb, ◌==◌, if◌then◌else◌, take, drop, is_empty, any, all,
}
use omemfs.Prelude.Bytes.{Bytes, codes, strip_prefix}
use omemfs.Prelude.Options.{◌>>=◌}
use omemfs.LineMerge.{
  split_lines, join_lines, DiffOp, aggregate_segments, has_conflict, policy_a_survivors,
  changed_other_lines,
}

-- `iter().position(|&b| b == c)`
unfoldable pub position : ℕ → Bytes → Option ℕ
position c [] = none
position c (b ∷ rest) =
    let later = position c rest in if b == c then some 0 else (do i ← later; some (suc i))

abbrev pub is_digit : ℕ → Bool
is_digit b = leb b'0' b && leb b b'9'

unfoldable pub decimal : Bytes → ℕ → ℕ
decimal [] n = n
decimal (b ∷ rest) n = decimal rest (n * 10 + (b - b'0'))

-- Not empty, and digits only.
abbrev pub is_number : Bytes → Bool
is_number bytes = not (is_empty bytes) && all is_digit bytes

-- A number that an `i64` does not hold does not parse.
pub parse_i64 : Bytes → Option ℕ
parse_i64 bytes = let n = decimal bytes 0 in if ltb n (2 ^ 63) then some n else none

unfoldable pub parse_extended_history_timestamp : Bytes → Option ℕ
parse_extended_history_timestamp line = do
  rest ← strip_prefix (codes ": ") line
  colon ← position b':' rest
  let epoch_bytes = take colon rest
  let after_colon = drop (colon + 1) rest
  (if not (is_number epoch_bytes) then none else (do
    semicolon ← position b';' after_colon
    (if not (is_number (take semicolon after_colon)) then none else parse_i64 epoch_bytes)))

-- The sort key: a line with no timestamp (`i64::MIN` in the source) is before every epoch, and an
-- epoch is never negative.
unfoldable pub sort_key : Bytes → ℕ
sort_key line = elim (parse_extended_history_timestamp line) [ none ↦ 0 | some epoch ↦ suc epoch ]

-- `sort_by_key`, the standard library's stable sort.
unfoldable pub insert_line : Bytes → List Bytes → List Bytes
insert_line l [] = l ∷ []
insert_line l (m ∷ ms) =
    let rest = insert_line l ms in if leb (sort_key l) (sort_key m) then l ∷ (m ∷ ms) else m ∷ rest

unfoldable pub sort_lines : List Bytes → List Bytes
sort_lines [] = []
sort_lines (l ∷ ls) = insert_line l (sort_lines ls)

abbrev pub has_timestamp : Bytes → Bool
has_timestamp line = leb 1 (sort_key line)

pub data MergeOutcome : Type 0 where
  clean : Bytes → MergeOutcome
  conflict : MergeOutcome

-- `merged`, in order of time where any of the lines has a timestamp.
unfoldable pub merged_lines : Bool → List Bytes → List Bytes
merged_lines timed lines = if timed then sort_lines lines else lines

module _ (capture_diff : List Bytes → List Bytes → List DiffOp) where
  unfoldable pub merge : Bytes → Bytes → Bytes → MergeOutcome
  merge base local remote =
      let base_lines = split_lines base in
      let local_lines = split_lines local in
      let remote_lines = split_lines remote in
      let local_segments = aggregate_segments (capture_diff base_lines local_lines) local_lines in
      let remote_segments =
        aggregate_segments (capture_diff base_lines remote_lines) remote_lines in
      let timed = any has_timestamp (base_lines ++ (local_lines ++ remote_lines)) in
      let lines =
        policy_a_survivors base_lines local_segments remote_segments
        ++ (changed_other_lines local_segments ++ changed_other_lines remote_segments) in
      if has_conflict local_segments remote_segments
      then conflict
      else clean (join_lines (merged_lines timed lines))
