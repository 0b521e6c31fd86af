-- ===== src/LineMerge/Lines.antt =====
-- `split_lines` of src/line_merge.rs followed by `join_lines`.
use omemfs.Prelude.{
  ℕ, ◌≡◌, refl, ap, ◌∙◌, Bool, true, false, List, [], ◌∷◌, ◌++◌, if◌then◌else◌, is_empty,
  append_assoc, Bool-cases, inl, inr, ◌==◌, ==_iff,
}
use omemfs.Prelude.Bytes.{Bytes}
use omemfs.LineMerge.{
  phys_lines, onto_first, ends_with_backslash, continue_into, logical_lines, split_lines,
  join_newline, join_lines,
}

-- Each line with its newline after it.
terminated : List Bytes → Bytes
terminated [] = []
terminated (l ∷ ls) = l ++ (10 ∷ terminated ls)

join_lines-terminated : (ls : List Bytes) → join_lines ls ≡ terminated ls
unfolding join_lines join_newline terminated
join_lines-terminated [] = refl
join_lines-terminated (l ∷ []) = refl
join_lines-terminated (l ∷ (m ∷ ls)) =
    append_assoc l (10 ∷ join_newline (m ∷ ls)) (10 ∷ [])
    ∙ ap (λ (t : Bytes). l ++ (10 ∷ t)) (join_lines-terminated (m ∷ ls))

terminated-continue_into :
    (l : Bytes) (ls : List Bytes) → terminated (continue_into l ls) ≡ l ++ (10 ∷ terminated ls)
unfolding terminated
terminated-continue_into l [] = refl
terminated-continue_into l (r ∷ rs) = append_assoc l (10 ∷ r) (10 ∷ terminated rs)

terminated-logical_lines : (ls : List Bytes) → terminated (logical_lines ls) ≡ terminated ls
unfolding terminated logical_lines
terminated-logical_lines [] = refl
terminated-logical_lines (l ∷ []) = refl
terminated-logical_lines (l ∷ (m ∷ ls)) =
    let ih = terminated-logical_lines (m ∷ ls) in
    let whole = ap (λ (t : Bytes). l ++ (10 ∷ t)) ih in
    elim (Bool-cases (ends_with_backslash l)) [
      | inl p ↦ rw p (terminated-continue_into l (logical_lines (m ∷ ls)) ∙ whole)
      | inr n ↦ rw n whole
    ]

-- Whether the last byte is a newline, as it also counts for an empty file.
unfoldable pub ends_line : Bytes → Bool
ends_line [] = true
ends_line (b ∷ []) = b == 10
ends_line (b ∷ (c ∷ rest)) = ends_line (c ∷ rest)

phys_lines_step :
    (b : ℕ) (content : Bytes)
    → phys_lines (b ∷ content)
      ≡ (if b == 10 then [] ∷ phys_lines content else onto_first b (phys_lines content))
unfolding phys_lines
phys_lines_step b content = refl

phys_lines_some : (b : ℕ) (content : Bytes) → is_empty (phys_lines (b ∷ content)) ≡ false
phys_lines_some b content = rw (phys_lines_step b content) (elim (Bool-cases (b == 10)) [
  | inl p ↦ rw p refl
  | inr n ↦ rw n (some_onto_first (phys_lines content))
])
  where
    some_onto_first : (ls : List Bytes) → is_empty (onto_first b ls) ≡ false
    some_onto_first [] = refl
    some_onto_first (l ∷ ls) = refl

terminated-onto_first :
    (b : ℕ) (ls : List Bytes)
    → is_empty ls ≡ false
    → terminated (onto_first b ls) ≡ b ∷ terminated ls
unfolding terminated
terminated-onto_first b [] h = cc
terminated-onto_first b (l ∷ ls) h = refl

phys_lines_head :
    (b c : ℕ) (rest : Bytes)
    → terminated (phys_lines (b ∷ (c ∷ rest))) ≡ b ∷ terminated (phys_lines (c ∷ rest))
unfolding terminated
phys_lines_head b c rest = rw (phys_lines_step b (c ∷ rest)) (elim (Bool-cases (b == 10)) [
  | inl p ↦ rw (p, (==_iff b 10).0 p) refl
  | inr n ↦ rw n (terminated-onto_first b (phys_lines (c ∷ rest)) (phys_lines_some c rest))
])

terminated-phys_lines :
    (content : Bytes)
    → terminated (phys_lines content)
      ≡ (if ends_line content then content else content ++ (10 ∷ []))
unfolding ends_line
terminated-phys_lines [] = unfold phys_lines terminated in refl
terminated-phys_lines (b ∷ []) =
    unfold phys_lines terminated in
    elim (Bool-cases (b == 10)) [ inl p ↦ rw p (rw ((==_iff b 10).0 p) refl) | inr n ↦ rw n refl ]
terminated-phys_lines (b ∷ (c ∷ rest)) =
    let ih = terminated-phys_lines (c ∷ rest) in
    rw (phys_lines_head b c rest, ih)
      (elim (Bool-cases (ends_line (c ∷ rest))) [ inl p ↦ rw p refl | inr n ↦ rw n refl ])

-- Joining the records of a file gives the file back, with a newline after the last line if it had
-- none.
pub join-split_lines :
    (content : Bytes)
    → join_lines (split_lines content)
      ≡ (if ends_line content then content else content ++ (10 ∷ []))
unfolding split_lines ends_line terminated
join-split_lines [] = join_lines-terminated []
join-split_lines (b ∷ rest) =
    join_lines-terminated (logical_lines (phys_lines (b ∷ rest)))
    ∙ terminated-logical_lines (phys_lines (b ∷ rest))
    ∙ terminated-phys_lines (b ∷ rest)
