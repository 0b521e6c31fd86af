-- ===== src/LineMerge.antt =====
-- src/line_merge.rs: the three-way merge of line-based history files.
pub mod Lines
pub mod Conflicts
pub mod Kept
pub mod Merge
use omemfs.Prelude.{
  ℕ, zero, suc, ◌+◌, ◌-◌, ◌*◌, ◌^◌, min, max, Bool, true, false, not, ◌&&◌, ◌||◌, List, [], ◌∷◌,
  ◌++◌, Option, none, some, ltb, leb, ◌==◌, if◌then◌else◌, get_elem?, set, length, take, drop,
  replicate, is_empty, any, all,
}
use omemfs.Prelude.Bytes.{Bytes, codes, strip_prefix}
use omemfs.Prelude.Options.{◌>>=◌}

-- The physical lines, a line that no newline ends being the last where it is not empty.
abbrev pub onto_first : ℕ → List Bytes → List Bytes
onto_first b [] = (b ∷ []) ∷ []
onto_first b (l ∷ ls) = (b ∷ l) ∷ ls

unfoldable pub phys_lines : Bytes → List Bytes
phys_lines [] = []
phys_lines (b ∷ rest) = let ls = phys_lines rest in if b == 10 then [] ∷ ls else onto_first b ls

unfoldable pub ends_with_backslash : Bytes → Bool
ends_with_backslash [] = false
ends_with_backslash (b ∷ []) = b == b'\\'
ends_with_backslash (b ∷ (c ∷ rest)) = ends_with_backslash (c ∷ rest)

-- A line that is continued is one record with what follows it, the newline between them included.
abbrev pub continue_into : Bytes → List Bytes → List Bytes
continue_into l [] = l ∷ []
continue_into l (r ∷ rs) = (l ++ (10 ∷ r)) ∷ rs

unfoldable pub logical_lines : List Bytes → List Bytes
logical_lines [] = []
logical_lines (l ∷ []) = l ∷ []
logical_lines (l ∷ (m ∷ ls)) =
    let rest = logical_lines (m ∷ ls) in
    if ends_with_backslash l then continue_into l rest else l ∷ rest

unfoldable pub split_lines : Bytes → List Bytes
split_lines content = if is_empty content then [] else logical_lines (phys_lines content)

-- `lines.join("\n")`
unfoldable pub join_newline : List Bytes → Bytes
join_newline [] = []
join_newline (l ∷ []) = l
join_newline (l ∷ (m ∷ ls)) = l ++ (10 ∷ join_newline (m ∷ ls))

unfoldable pub join_lines : List Bytes → Bytes
join_lines lines = if is_empty lines then [] else join_newline lines ++ (10 ∷ [])

-- `similar::DiffOp`
pub data DiffOp : Type 0 where
  equal : (old_index new_index len : ℕ) → DiffOp
  delete : (old_index old_len new_index : ℕ) → DiffOp
  insert : (old_index new_index new_len : ℕ) → DiffOp
  replace : (old_index old_len new_index new_len : ℕ) → DiffOp

pub record ChangeSegment : Type 0 where
  pub start : ℕ
  pub end : ℕ
  pub other_lines : List Bytes

pub data Segment : Type 0 where
  keep : (start end : ℕ) → Segment
  change : ChangeSegment → Segment

-- `flush`
unfoldable pub flush : Option ChangeSegment → List Segment → List Segment
flush none segments = segments
flush (some c) segments = change c ∷ segments

unfoldable pub extend_range : Option ChangeSegment → ℕ → ℕ → ChangeSegment
extend_range none start end = record { start = start; end = end; other_lines = [] }
extend_range (some c) start end = record {
  start = min c.start start;
  end = max c.end end;
  other_lines = c.other_lines;
}

unfoldable pub extend_lines : ChangeSegment → List Bytes → ChangeSegment
extend_lines c lines = record c { other_lines = c.other_lines ++ lines }

-- The loop over the operations, with the change that is pending.
unfoldable pub aggregate : List DiffOp → List Bytes → Option ChangeSegment → List Segment
aggregate [] other pending = flush pending []
aggregate (equal old_index new_index len ∷ ops) other pending =
    flush pending (keep old_index (old_index + len) ∷ aggregate ops other none)
aggregate (delete old_index old_len new_index ∷ ops) other pending =
    aggregate ops other (some (extend_range pending old_index (old_index + old_len)))
aggregate (insert old_index new_index new_len ∷ ops) other pending = aggregate ops other (
    some (
      extend_lines (extend_range pending old_index old_index)
        (take new_len (drop new_index other))))
aggregate (replace old_index old_len new_index new_len ∷ ops) other pending = aggregate ops other (
    some (
      extend_lines (extend_range pending old_index (old_index + old_len))
        (take new_len (drop new_index other))))

unfoldable pub aggregate_segments : List DiffOp → List Bytes → List Segment
aggregate_segments ops other_lines = aggregate ops other_lines none

unfoldable pub ranges_overlap : ChangeSegment → ChangeSegment → Bool
ranges_overlap a b = ltb (max a.start b.start) (min a.end b.end)

-- `filter_map(as_change)` and the filter on replacement content.
unfoldable pub changes : List Segment → List ChangeSegment
changes [] = []
changes (keep start end ∷ segments) = changes segments
changes (change c ∷ segments) =
    let rest = changes segments in if is_empty c.other_lines then rest else c ∷ rest

unfoldable pub has_conflict : List Segment → List Segment → Bool
unfolding changes ranges_overlap
has_conflict local_segments remote_segments =
    any (λ l. any (λ r. ranges_overlap l r) (changes remote_segments)) (changes local_segments)

-- `for i in range { kept[i] = true }`, from `start` on.
unfoldable pub mark : ℕ → ℕ → List Bool → List Bool
mark zero start kept = kept
mark (suc n) start kept = mark n (suc start) (set kept start true)

unfoldable pub mark_kept : List Segment → List Bool → List Bool
mark_kept [] kept = kept
mark_kept (keep start end ∷ segments) kept = mark_kept segments (mark (end - start) start kept)
mark_kept (change c ∷ segments) kept = mark_kept segments kept

unfoldable pub marked : List Bytes → List Bool → List Bytes
marked (l ∷ ls) (k ∷ ks) = let rest = marked ls ks in if k then l ∷ rest else rest
marked _ _ = []

unfoldable pub policy_a_survivors : List Bytes → List Segment → List Segment → List Bytes
unfolding mark_kept marked
policy_a_survivors base_lines local_segments remote_segments =
    marked base_lines
      (mark_kept remote_segments (mark_kept local_segments (replicate (length base_lines) false)))

unfoldable pub changed_other_lines : List Segment → List Bytes
changed_other_lines [] = []
changed_other_lines (keep start end ∷ segments) = changed_other_lines segments
changed_other_lines (change c ∷ segments) = c.other_lines ++ changed_other_lines segments
