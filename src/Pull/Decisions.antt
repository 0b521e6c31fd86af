-- ===== src/Pull/Decisions.antt =====
-- `classify_conflicts` and `resolve_line_merges` of src/commands/pull.rs, path by path.
pub mod Conflicts
pub mod Classified
pub mod Sides
pub mod Merged
use omemfs.Prelude.{
  ◌≡◌, refl, ◌∙◌, Bool, true, false, not, ◌||◌, ◌&&◌, List, [], ◌∷◌, Option, none, some,
  if◌then◌else◌, any, Bool-cases, Option-cases, inl, inr, arith,
}
use omemfs.Prelude.Bytes.{Bytes, bytes_eq, bytes_eq→eq}
use omemfs.Prelude.Maps.{get}
use omemfs.Pull.{
  DiffEntry, Diff, conflicts_with, insert_path, sort_paths, partition, classify_conflicts, attempt,
  settle, resolve_line_merges,
}
use omemfs.Object.Digest.{Digest}
use omemfs.Object.Entry.{TreeEntry}
use omemfs.Trees.Store.{Store}
use omemfs.LineMerge.{DiffOp}

abbrev pub mem : Bytes → List Bytes → Bool
mem p [] = false
mem p (q ∷ qs) = bytes_eq q p || mem p qs

-- One entry for each path, as in a `HashMap`.
abbrev pub DistinctPaths : Diff → Type 0
DistinctPaths [] = Unit
DistinctPaths ((path, entry) ∷ diff) = (get path diff ≡ none) × DistinctPaths diff

mem-insert_path : (p q : Bytes) (qs : List Bytes) → mem p (insert_path q qs) ≡ mem p (q ∷ qs)
unfolding insert_path
mem-insert_path p q [] = refl
mem-insert_path p q (r ∷ qs) = let ih = mem-insert_path p q qs in ground arith

mem-sort_paths : (p : Bytes) (ps : List Bytes) → mem p (sort_paths ps) ≡ mem p ps
unfolding sort_paths
mem-sort_paths p [] = refl
mem-sort_paths p (q ∷ ps) =
    let ih = mem-sort_paths p ps in mem-insert_path p q (sort_paths ps) ∙ (rw ih refl)

-- What the test of the loop says of a path of the remote side.
abbrev pub is_conflict : Diff → Bytes → Option DiffEntry → Bool
is_conflict local_diff path none = false
is_conflict local_diff path (some entry) =
    conflicts_with local_diff path entry (get path local_diff)

abbrev pub unless {ℓ} : {A : Type ℓ} → Bool → Option A → Option A
unless c o = if c then none else o

partition_lem :
    (remote_diff local_diff : Diff) (path : Bytes)
    → DistinctPaths remote_diff
    → (get path (partition remote_diff local_diff).0
        ≡ unless (is_conflict local_diff path (get path remote_diff)) (get path remote_diff))
      × (mem path (partition remote_diff local_diff).1
          ≡ is_conflict local_diff path (get path remote_diff))
unfolding partition get
partition_lem [] local_diff path d = (refl, refl)
partition_lem ((key, entry) ∷ diff) local_diff path (u, d) =
    let ih = partition_lem diff local_diff path d in
    elim (Bool-cases (bytes_eq key path)) [
      | inl same ↦
          let e : key ≡ path = bytes_eq→eq _ _ same in
          let u' : get path diff ≡ none = rw e at u in
          let ih' = rw u' at ih in
          elim (Bool-cases (conflicts_with local_diff key entry (get key local_diff))) [
            | inl c ↦
                let here : conflicts_with local_diff path entry (get path local_diff) ≡ true =
                  rw e at c in
                rw (c, same, here) (ih'.0, refl)
            | inr n ↦
                let here : conflicts_with local_diff path entry (get path local_diff) ≡ false =
                  rw e at n in
                rw (n, same, here) (refl, ih'.1)
          ]
      | inr other ↦ elim (Bool-cases (conflicts_with local_diff key entry (get key local_diff))) [
        | inl c ↦ rw (c, other) ih
        | inr n ↦ rw (n, other) ih
      ]
    ]

-- For a remote diff with one entry for each path: a path's remote change is among those applied,
-- unchanged, exactly if the test finds no conflict; the path is among the conflicts exactly if it
-- finds one; a path that the remote did not change is in neither.
pub classify_conflicts-is_conflict :
    (remote_diff local_diff : Diff) (path : Bytes)
    → DistinctPaths remote_diff
    → (get path (classify_conflicts remote_diff local_diff).0
        ≡ unless (is_conflict local_diff path (get path remote_diff)) (get path remote_diff))
      × (mem path (classify_conflicts remote_diff local_diff).1
          ≡ is_conflict local_diff path (get path remote_diff))
unfolding classify_conflicts
classify_conflicts-is_conflict remote_diff local_diff path d =
    let parts = partition_lem remote_diff local_diff path d in
    (parts.0, mem-sort_paths path (partition remote_diff local_diff).1 ∙ parts.1)
