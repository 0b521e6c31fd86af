-- ===== src/Filter/Selected.antt =====
-- Which paths a pattern of src/filter.rs selects, and which pattern of a section decides.
use omemfs.Prelude.{
  ◌≡◌, refl, ap, ◌∙◌, ◌↔◌, ◌⊎◌, inl, inr, Bool, true, false, not, ◌||◌, [], ◌∷◌, ◌++◌,
  if◌then◌else◌, drop, All, arith, Bool-cases,
}
use omemfs.Prelude.Bytes.{Bytes, codes, starts_with}
use omemfs.Filter.Glob.{glob_match}
use omemfs.Filter.Wildcard.{glob_match_lem}
use omemfs.Filter.Spread.{Globs}
use omemfs.Filter.{Pattern, matches_below, pattern_matches, Section, matches_from, section_matches}

-- The text is a path of its own, or what follows a slash of one.
abbrev InAnyDirectory : Bytes → Bytes → Type 0
InAnyDirectory text rel_path =
    Globs text rel_path
    ⊎ ((dirs : Bytes) × (rest : Bytes) × (rel_path ≡ dirs ++ (b'/' ∷ rest)) × Globs text rest)

-- What a pattern means: a leading `/` ties it to the directory of its file, and `**/` adds nothing.
unfoldable pub Describes : Pattern → Bytes → Type 0
Describes pattern rel_path =
    if pattern.anchored
    then Globs pattern.text rel_path
    else if starts_with pattern.text (codes "**/")
    then InAnyDirectory (drop 3 pattern.text) rel_path
    else InAnyDirectory pattern.text rel_path

matches_below_sound :
    (text rel_path : Bytes)
    → matches_below text rel_path ≡ true
    → (dirs : Bytes) × (rest : Bytes) × (rel_path ≡ dirs ++ (b'/' ∷ rest))
      × (glob_match text rest ≡ true)
unfolding matches_below
matches_below_sound text [] h = cc
matches_below_sound text (c ∷ rel_path) h = elim (Bool-cases (matches_below text rel_path)) [
  | inl deeper ↦
      let (dirs, rest, e, g) = matches_below_sound text rel_path deeper in
      (c ∷ dirs, rest, ap (λ t. c ∷ t) e, g)
  | inr here ↦ ([], rel_path, ap (λ d. d ∷ rel_path) (ground arith), ground arith)
]

matches_below_complete :
    (text dirs rest : Bytes)
    → glob_match text rest ≡ true
    → matches_below text (dirs ++ (b'/' ∷ rest)) ≡ true
unfolding matches_below
matches_below_complete text [] rest h = rw h refl
matches_below_complete text (d ∷ dirs) rest h =
    let ih = matches_below_complete text dirs rest h in ground arith

any_directory_iff :
    (text rel_path : Bytes)
    → ((glob_match text rel_path || matches_below text rel_path) ≡ true)
      ↔ InAnyDirectory text rel_path
any_directory_iff text rel_path = (
  (λ h. elim (Bool-cases (glob_match text rel_path)) [
    | inl here ↦ inl ((glob_match_lem text rel_path).0 here)
    | inr other ↦
        let (dirs, rest, e, g) = matches_below_sound text rel_path (ground arith) in
        inr (dirs, rest, e, (glob_match_lem text rest).0 g)
  ]),
  (λ h. elim h [
    | inl here ↦ let g = (glob_match_lem text rel_path).1 here in ground arith
    | inr (dirs, rest, e, here) ↦
        let g =
          ap (matches_below text) e
          ∙ matches_below_complete text dirs rest ((glob_match_lem text rest).1 here) in
        ground arith
  ]),
)

-- A pattern matches exactly the paths it describes: an anchored one the whole path, any other one
-- the whole path or what follows one of its slashes.
pub pattern_matches_lem :
    (pattern : Pattern) (rel_path : Bytes)
    → (pattern_matches pattern rel_path ≡ true) ↔ Describes pattern rel_path
unfolding pattern_matches Describes
pattern_matches_lem pattern rel_path = elim (Bool-cases pattern.anchored) [
  | inl top ↦ rw top (glob_match_lem pattern.text rel_path)
  | inr free ↦ elim (Bool-cases (starts_with pattern.text (codes "**/"))) [
    | inl deep ↦ rw (free, deep) (any_directory_iff (drop 3 pattern.text) rel_path)
    | inr plain ↦ rw (free, plain) (any_directory_iff pattern.text rel_path)
  ]
]

abbrev pub NoneMatch : Section → Bytes → Type 0
NoneMatch patterns rel_path = All (λ p. pattern_matches p rel_path ≡ false) patterns

matches_from_none :
    (matched : Bool) (patterns : Section) (rel_path : Bytes)
    → NoneMatch patterns rel_path
    → matches_from matched patterns rel_path ≡ matched
unfolding matches_from
matches_from_none matched [] rel_path h = refl
matches_from_none matched (p ∷ patterns) rel_path h =
    rw h.0 (matches_from_none matched patterns rel_path h.1)

matches_from_last :
    (matched : Bool) (front : Section) (p : Pattern) (back : Section) (rel_path : Bytes)
    → pattern_matches p rel_path ≡ true
    → NoneMatch back rel_path
    → matches_from matched (front ++ (p ∷ back)) rel_path ≡ not p.negated
unfolding matches_from
matches_from_last matched [] p back rel_path h k =
    rw (matches_from, h) (matches_from_none (not p.negated) back rel_path k)
matches_from_last matched (q ∷ front) p back rel_path h k =
    matches_from_last (if pattern_matches q rel_path then not q.negated else matched) front p back
      rel_path h k

-- Where none of the later patterns matches a path: if a pattern matches it, the path is selected
-- exactly if that pattern is not negated; with the later patterns alone it is not selected.
pub section_matches_lem :
    (front : Section) (p : Pattern) (back : Section) (rel_path : Bytes)
    → NoneMatch back rel_path
    → (pattern_matches p rel_path ≡ true
        → section_matches (front ++ (p ∷ back)) rel_path ≡ not p.negated)
      × (section_matches back rel_path ≡ false)
unfolding section_matches
section_matches_lem front p back rel_path k = (
  (λ h. matches_from_last false front p back rel_path h k),
  matches_from_none false back rel_path k,
)
