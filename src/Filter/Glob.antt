-- ===== src/Filter/Glob.antt =====
-- `glob_match` of src/filter.rs. A text is its list of characters.
use omemfs.Prelude.{
  ℕ, suc, ◌+◌, ◌-◌, Bool, true, false, not, ◌&&◌, List, [], ◌∷◌, Option, none, some, ◌==◌,
  if◌then◌else◌, length, take, drop,
}
use omemfs.Prelude.Bytes.{Bytes, bytes_eq, strip_prefix, starts_with}
use omemfs.Object.Names.{has_char, ends_with}

-- `pattern.split('*')`
unfoldable pub split_star : Bytes → List Bytes
split_star [] = [] ∷ []
split_star (c ∷ pattern) = elim (split_star pattern) [
  | [] ↦ []
  | first ∷ rest ↦ if c == b'*' then [] ∷ (first ∷ rest) else (c ∷ first) ∷ rest
]

-- `s.find(part)`
unfoldable pub find_text : Bytes → Bytes → Option ℕ
unfolding starts_with
find_text part [] = if starts_with [] part then some 0 else none
find_text part (c ∷ s) =
    let later = find_text part s in
    if starts_with (c ∷ s) part then some 0 else elim later [ none ↦ none | some i ↦ some (suc i) ]

-- The rounds of the loop after the first part: a middle part, or the last one.
unfoldable pub match_parts : List Bytes → Bytes → Bool
unfolding find_text has_char ends_with
match_parts [] remaining = true
match_parts (part ∷ []) remaining =
    ends_with remaining part
    && not (has_char b'/' (take (length remaining - length part) remaining))
match_parts (part ∷ (next ∷ parts)) remaining = elim (find_text part remaining) [
  | none ↦ false
  | some pos ↦
      not (has_char b'/' (take pos remaining))
      && match_parts (next ∷ parts) (drop (pos + length part) remaining)
]

-- The loop from its first round.
unfoldable pub match_first : List Bytes → Bytes → Bool
unfolding match_parts strip_prefix
match_first [] name = true
match_first (part ∷ parts) name = elim (strip_prefix part name) [
  | none ↦ false
  | some remaining ↦ match_parts parts remaining
]

unfoldable pub glob_match : Bytes → Bytes → Bool
unfolding match_first split_star has_char
glob_match pattern name =
    if not (has_char b'*' pattern)
    then bytes_eq pattern name
    else match_first (split_star pattern) name
