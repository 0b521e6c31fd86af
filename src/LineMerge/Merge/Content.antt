-- ===== src/LineMerge/Merge/Content.antt =====
-- The lines of a clean merge of src/line_merge.rs, counted.
use omemfs.Prelude.{
  ℕ, suc, ◌+◌, ◌≡◌, Bool, true, not, ◌||◌, ◌&&◌, List, [], ◌∷◌, ◌++◌, leb, if◌then◌else◌, any,
}
use omemfs.Prelude.Bytes.{Bytes, bytes_eq}
use omemfs.LineMerge.{
  Segment, DiffOp, split_lines, join_lines, aggregate_segments, changed_other_lines,
}
use omemfs.LineMerge.Kept.{covers, select}
use omemfs.LineMerge.Merge.{sort_key, has_timestamp, clean, merge}

-- How often a line occurs.
unfoldable pub count : Bytes → List Bytes → ℕ
count l [] = 0
count l (m ∷ ms) = let rest = count l ms in if bytes_eq m l then suc rest else rest

-- In order of time.
abbrev at_most : ℕ → List Bytes → Bool
at_most t [] = true
at_most t (l ∷ ls) = leb t (sort_key l)

unfoldable pub in_order : List Bytes → Bool
in_order [] = true
in_order (l ∷ ls) = at_most (sort_key l) ls && in_order ls

module _ (capture_diff : List Bytes → List Bytes → List DiffOp) where
  -- The segments of a side, and whether any of the three files has a timestamp.
  abbrev pub segments_of : Bytes → Bytes → List Segment
  segments_of base side =
      aggregate_segments (capture_diff (split_lines base) (split_lines side)) (split_lines side)

  abbrev pub is_timed : Bytes → Bytes → Bytes → Bool
  is_timed base local remote =
      any has_timestamp (split_lines base ++ (split_lines local ++ split_lines remote))

  abbrev pub survivors : Bytes → Bytes → Bytes → List Bytes
  survivors base local remote =
      select (λ i. covers (segments_of base local) i || covers (segments_of base remote) i) 0
        (split_lines base)

  -- The lines of a clean merge.
  abbrev pub MergesTo : Bytes → Bytes → Bytes → List Bytes → Type 0
  MergesTo base local remote lines =
      (merge capture_diff base local remote ≡ clean (join_lines lines))
      × ((l : Bytes)
          → count l lines
            ≡ count l (survivors base local remote)
              + (count l (changed_other_lines (segments_of base local))
                  + count l (changed_other_lines (segments_of base remote))))
      × ((not (is_timed base local remote) || in_order lines) ≡ true)
