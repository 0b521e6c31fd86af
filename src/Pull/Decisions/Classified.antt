-- ===== src/Pull/Decisions/Classified.antt =====
-- `classify_conflicts` of src/commands/pull.rs by what the two sides did to a path.
use omemfs.Prelude.{
  ◌≡◌, ◌↔◌, ◌⊎◌, refl, sym, true, false, none, some, Bool-cases, Option-cases, inl, inr, arith,
}
use omemfs.Prelude.Bytes.{Bytes}
use omemfs.Prelude.Maps.{get}
use omemfs.Pull.{DiffEntry, added_tree, Diff, same_content, conflicts_with, classify_conflicts}
use omemfs.Pull.Decisions.{mem, DistinctPaths, classify_conflicts-is_conflict}
use omemfs.Pull.Decisions.Conflicts.{
  SameContent, same_content_sound, same_content_complete, ChangesBelow, any_under_sound,
  any_under_complete,
}

abbrev pub IsAddedTree : DiffEntry → Type 0
IsAddedTree (added_tree hash size mtime blob_count) = Unit
IsAddedTree _ = ⊥

-- A remote change of a path is in conflict where the local side changed the path to something else,
-- or where the remote adds a tree in which the local side changed something.
abbrev pub Conflicting : Diff → Bytes → DiffEntry → Type 0
Conflicting local_diff path remote_entry =
    ((local_entry : DiffEntry) × (get path local_diff ≡ some local_entry)
      × ¬ SameContent remote_entry local_entry)
    ⊎ ((get path local_diff ≡ none) × IsAddedTree remote_entry × ChangesBelow local_diff path)

alone_sound :
    (local_diff : Diff) (path : Bytes) (r : DiffEntry)
    → conflicts_with local_diff path r none ≡ true
    → IsAddedTree r × ChangesBelow local_diff path
unfolding conflicts_with
alone_sound local_diff path (added_tree h z m c) e = (tt, any_under_sound local_diff path e)
alone_sound local_diff path _ e = cc

alone_complete :
    (local_diff : Diff) (path : Bytes) (r : DiffEntry)
    → IsAddedTree r
    → ChangesBelow local_diff path
    → conflicts_with local_diff path r none ≡ true
unfolding conflicts_with
alone_complete local_diff path (added_tree h z m c) t b = any_under_complete local_diff path b
alone_complete local_diff path _ t b = absurd t

conflicts_with_iff :
    (local_diff : Diff) (path : Bytes) (r : DiffEntry)
    → (conflicts_with local_diff path r (get path local_diff) ≡ true)
      ↔ Conflicting local_diff path r
unfolding conflicts_with
conflicts_with_iff local_diff path r = elim (Option-cases (get path local_diff)) [
  | inl gone ↦ (
    λ h. let (t, b) = alone_sound local_diff path r (rw gone at h) in inr (gone, t, b),
    λ c. elim c [
      | inl (l, e, differs) ↦ cc
      | inr (_, t, b) ↦ rw gone (alone_complete local_diff path r t b)
    ],
  )
  | inr (l, there) ↦ (
    λ h. inl (
      l,
      there,
      λ s. let k = same_content_complete r l s in let h' = rw there at h in ground arith,
    ),
    λ c. elim c [
      | inl (k, e, differs) ↦
          let same : k ≡ l = cc in
          rw there (elim (Bool-cases (same_content r l)) [
            | inl s ↦ absurd (differs (rw same (same_content_sound r l s)))
            | inr s ↦ rw s refl
          ])
      | inr (gone, _, _) ↦ cc
    ],
  )
]

-- For a remote diff with one entry for each path: a path is among the conflicts exactly if the
-- remote changed it and either the local side changed it too and the two did not leave the same
-- blob, the same symlink text, both nothing or both an empty directory, or the local side did not
-- change it, the remote adds a tree there, and the local side changed something in that directory
-- that is neither its `.git` nor inside it. A path's remote change is among those applied,
-- unchanged, exactly if it is not such a conflict.
pub classify_conflicts_lem :
    (remote_diff local_diff : Diff) (path : Bytes)
    → DistinctPaths remote_diff
    → ((mem path (classify_conflicts remote_diff local_diff).1 ≡ true) ↔ (
        (entry : DiffEntry) × (get path remote_diff ≡ some entry)
        × Conflicting local_diff path entry))
      × ((entry : DiffEntry)
          → (get path (classify_conflicts remote_diff local_diff).0 ≡ some entry)
            ↔ ((get path remote_diff ≡ some entry) × ¬ Conflicting local_diff path entry))
classify_conflicts_lem remote_diff local_diff path d =
    let (applied, refused) = classify_conflicts-is_conflict remote_diff local_diff path d in
    elim (Option-cases (get path remote_diff)) [
      | inl gone ↦
          let no : mem path (classify_conflicts remote_diff local_diff).1 ≡ false =
            rw gone at refused in
          let none' : get path (classify_conflicts remote_diff local_diff).0 ≡ none =
            rw gone at applied in
          ((λ h. cc, λ (e, k, c). cc), λ e. (λ h. cc, λ (k, c). cc))
      | inr (r, there) ↦
          let test = conflicts_with_iff local_diff path r in
          elim (Bool-cases (conflicts_with local_diff path r (get path local_diff))) [
            | inl c ↦
                let yes : mem path (classify_conflicts remote_diff local_diff).1 ≡ true =
                  rw (there, c) at refused in
                let none' : get path (classify_conflicts remote_diff local_diff).0 ≡ none =
                  rw (there, c) at applied in
                (
                  (λ h. (r, there, test.0 c), λ k. yes),
                  λ e. (
                    λ h. cc,
                    λ (k, n). let same : r ≡ e = cc in absurd (n (rw (sym same) (test.0 c))),
                  ),
                )
            | inr n ↦
                let no : mem path (classify_conflicts remote_diff local_diff).1 ≡ false =
                  rw (there, n) at refused in
                let kept : get path (classify_conflicts remote_diff local_diff).0 ≡ some r =
                  rw (there, n) at applied in
                let clear : ¬ Conflicting local_diff path r = λ c. let t = test.1 c in cc in
                (
                  (λ h. cc, λ (e, k, c). let same : e ≡ r = cc in absurd (clear (rw (sym same) c))),
                  λ e. (
                    λ h. let same : e ≡ r = cc in (rw same there, rw same clear),
                    λ (k, _). let same : r ≡ e = cc in rw (sym same) kept,
                  ),
                )
          ]
    ]
