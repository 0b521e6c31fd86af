-- ===== src/Filter/Files.antt =====
-- `is_ignored`, `is_aggregated` and `is_line_merge` of src/filter.rs over the files of a working tree.
use omemfs.Prelude.{
  ◌≡◌, ap, sym, ◌∙◌, ◌↔◌, ◌⊎◌, inl, inr, Bool, true, [], ◌∷◌, ◌++◌, some, arith, Bool-cases,
  Option-cases, append_assoc,
}
use omemfs.Prelude.Bytes.{Bytes, codes, strip_prefix, strip_prefix-append, strip_prefix_sound}
use omemfs.Object.Names.Paths.{join_path}
use omemfs.Filter.{FilterFile, FilterSet, path_in_scope, test, section_matches, is_ignored}

-- A path lies below a directory exactly if it is joined from the directory and what is below it.
pub path_in_scope_iff :
    (dir rel_path below : Bytes)
    → (path_in_scope dir rel_path ≡ some below) ↔ (rel_path ≡ join_path dir below)
unfolding path_in_scope join_path
path_in_scope_iff [] rel_path below = (λ h. cc, λ h. ap some h)
path_in_scope_iff (c ∷ dir) rel_path below = (
  (λ h.
      strip_prefix_sound ((c ∷ dir) ++ codes "/") rel_path below h
      ∙ append_assoc (c ∷ dir) (codes "/") below),
  (λ h.
      ap (strip_prefix ((c ∷ dir) ++ codes "/"))
        (h ∙ sym (append_assoc (c ∷ dir) (codes "/") below))
      ∙ strip_prefix-append ((c ∷ dir) ++ codes "/") below),
)

-- Some file whose directory holds the path passes the check on the path below it.
abbrev pub SomeFile : (FilterFile → Bytes → Bool) → FilterSet → Bytes → Type 0
SomeFile check [] rel_path = ⊥
SomeFile check ((dir, ff) ∷ files) rel_path =
    ((below : Bytes) × (rel_path ≡ join_path dir below) × (check ff below ≡ true))
    ⊎ SomeFile check files rel_path

test_iff :
    (check : FilterFile → Bytes → Bool) (files : FilterSet) (rel_path : Bytes)
    → (test check files rel_path ≡ true) ↔ SomeFile check files rel_path
unfolding test
test_iff check [] rel_path = ((λ h. cc), (λ h. absurd h))
test_iff check ((dir, ff) ∷ files) rel_path =
    let ih = test_iff check files rel_path in
    elim (Option-cases (path_in_scope dir rel_path)) [
      | inl outside ↦
          rw (test, outside)
            (
              (λ h. inr (ih.0 h)),
              (λ h. elim h [
                | inl (below, e, k) ↦
                    absurd (let inside = (path_in_scope_iff dir rel_path below).1 e in cc)
                | inr later ↦ ih.1 later
              ]),
            )
      | inr (below, inside) ↦
          rw (test, inside)
            (
              (λ h. elim (Bool-cases (check ff below)) [
                | inl here ↦ inl (below, (path_in_scope_iff dir rel_path below).0 inside, here)
                | inr failed ↦ inr (ih.0 (ground arith))
              ]),
              (λ h. elim h [
                | inl (other, e, k) ↦
                    let same = (path_in_scope_iff dir rel_path other).1 e in ground arith
                | inr later ↦ let rest = ih.1 later in ground arith
              ]),
            )
    ]

-- A path is ignored exactly if some filter file's directory holds it, so that the path is joined
-- from the directory and a path below it, and the file's ignore section selects the path below.
pub is_ignored_lem :
    (files : FilterSet) (rel_path : Bytes)
    → (is_ignored files rel_path ≡ true)
      ↔ SomeFile (λ ff below. section_matches ff.ignore below) files rel_path
unfolding is_ignored
is_ignored_lem files rel_path =
    test_iff (λ ff below. section_matches ff.ignore below) files rel_path
