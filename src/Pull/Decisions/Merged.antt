-- ===== src/Pull/Decisions/Merged.antt =====
-- `resolve_line_merges` of src/commands/pull.rs by the two sides, the base and the merge of a path.
use omemfs.Prelude.{
  ◌≡◌, ◌↔◌, refl, sym, ◌∙◌, Bool, true, false, not, ◌&&◌, List, [], ◌∷◌, Option, none, some,
  is_empty, filter, Bool-cases, Option-cases, inl, inr, arith,
}
use omemfs.Prelude.Bytes.{Bytes, bytes_eq, bytes_eq→eq}
use omemfs.Prelude.Maps.{get}
use omemfs.Prelude.Options.{>>=-eq-some}
use omemfs.Prelude.Errors.{ok}
use omemfs.Object.Digest.{Digest}
use omemfs.Object.Entry.{TreeEntry}
use omemfs.Object.Names.Paths.{split_path}
use omemfs.Trees.Store.{Store}
use omemfs.Trees.Read.{navigate}
use omemfs.Chunks.{read_blob_bytes}
use omemfs.LineMerge.{DiffOp}
use omemfs.LineMerge.Merge.{MergeOutcome, clean, conflict, merge}
use omemfs.Pull.{
  DiffEntry, Diff, is_blob_change, blob_of, to_option, merged_bytes, settle, is_candidate,
  base_blob, base_bytes, try_line_merge_one, attempt, resolve_line_merges,
}
use omemfs.Pull.Decisions.{mem, unless}
use omemfs.Pull.Decisions.Conflicts.{Writes}
use omemfs.Pull.Decisions.Sides.{
  and_false, is_none, to_option-ok, blob_of-Writes, Writes-blob_of, is_blob_change-Writes,
  Writes-is_blob_change,
}

module _ (sha256 : Bytes → Bytes) (from_json : Bytes → Option (List TreeEntry))
    (capture_diff : List Bytes → List Bytes → List DiffOp) (file : Bytes → Option Bytes)
    (lazy : Store) (base_root : Option Digest) where
  abbrev pub BlobIs : Option Digest → Bytes → Type 0
  BlobIs none bytes = bytes ≡ []
  BlobIs (some hash) bytes = read_blob_bytes lazy hash ≡ ok bytes

  -- The base of a path: empty without a base root or an entry of that path, else the blob there.
  abbrev pub BaseIs : Option Digest → Bytes → Bytes → Type 0
  BaseIs none path base = base ≡ []
  BaseIs (some root) path base =
      (found : Option Digest) × (navigate sha256 from_json lazy root
          (filter (λ n. not (is_empty n)) (split_path path))
        ≡ ok found)
      × BlobIs found base

  base_blob-BlobIs :
      (found : Option Digest) (base : Bytes)
      → (base_blob sha256 from_json capture_diff file lazy base_root found ≡ some base)
        ↔ BlobIs found base
  unfolding base_blob
  base_blob-BlobIs none base = (λ h. cc, λ h. cc)
  base_blob-BlobIs (some hash) base =
      (λ h. to_option-ok (read_blob_bytes lazy hash) h, λ h. rw h refl)

  base_bytes-BaseIs :
      (root : Option Digest) (path base : Bytes)
      → (base_bytes sha256 from_json capture_diff file lazy base_root path root ≡ some base)
        ↔ BaseIs root path base
  unfolding base_bytes
  base_bytes-BaseIs none path base = (λ h. cc, λ h. cc)
  base_bytes-BaseIs (some root) path base = (
    λ h.
        let (found, f, g) =
          >>=-eq-some
            (to_option (
              navigate sha256 from_json lazy root
                (filter (λ n. not (is_empty n)) (split_path path))))
            _ h in
        (found, to_option-ok _ f, (base_blob-BlobIs found base).0 g),
    λ (found, f, g). rw f ((base_blob-BlobIs found base).1 g),
  )

  module _ (is_line_merge : Bytes → Bool) (remote_diff local_diff : Diff) where
    -- Both sides left a blob at the path, which the filter names for line merges, and the merge of
    -- the file in the working tree with the remote's blob over the base is clean and has these bytes.
    abbrev pub Resolves : Bytes → Bytes → Type 0
    Resolves path bytes =
        (remote_entry : DiffEntry) × (local_entry : DiffEntry) × (get path remote_diff
          ≡ some remote_entry)
        × (get path local_diff ≡ some local_entry)
        × (remote_hash : Digest) × Writes remote_entry remote_hash
        × (local_hash : Digest) × Writes local_entry local_hash
        × (is_line_merge path ≡ true)
        × (local : Bytes) × (file path ≡ some local)
        × (remote : Bytes) × (read_blob_bytes lazy remote_hash ≡ ok remote)
        × (base : Bytes) × BaseIs base_root path base
        × (merge capture_diff base local remote ≡ clean bytes)

    abbrev tried : Bytes → Option Bytes
    tried path =
        attempt sha256 from_json capture_diff file lazy base_root is_line_merge remote_diff
          local_diff path

    candidate :
        (path : Bytes)
        → is_candidate sha256 from_json capture_diff file lazy base_root is_line_merge
            (get path remote_diff)
            (get path local_diff)
            path
          ≡ true
        → (r : DiffEntry) × (l : DiffEntry) × (get path remote_diff ≡ some r)
          × (get path local_diff ≡ some l)
          × (is_blob_change r ≡ true)
          × (is_blob_change l ≡ true)
          × (is_line_merge path ≡ true)
    candidate path h = elim (Option-cases (get path remote_diff)) [
      | inl gone ↦ let h' = rw gone at h in cc
      | inr (r, e) ↦ elim (Option-cases (get path local_diff)) [
        | inl gone ↦ let h' = rw (e, gone) at h in cc
        | inr (l, f) ↦
            let h' = rw (e, f) at h in (r, l, e, f, ground arith, ground arith, ground arith)
      ]
    ]

    merged_bytes-clean :
        (outcome : MergeOutcome) (bytes : Bytes)
        → merged_bytes outcome ≡ some bytes
        → outcome ≡ clean bytes
    merged_bytes-clean (clean b) bytes h = cc
    merged_bytes-clean conflict bytes h = cc

    attempt_sound : (path bytes : Bytes) → tried path ≡ some bytes → Resolves path bytes
    unfolding attempt try_line_merge_one
    attempt_sound path bytes h =
        elim (Bool-cases (
          is_candidate sha256 from_json capture_diff file lazy base_root is_line_merge
            (get path remote_diff) (get path local_diff) path)) [
              | inr unfit ↦ let h' = rw unfit at h in cc
              | inl fit ↦
                  let (r, l, e, f, blob_r, blob_l, named) = candidate path fit in
                  let (hash_l, left_l) = is_blob_change-Writes l blob_l in
                  let (r', e', g) = >>=-eq-some (get path remote_diff) _ (rw fit at h) in
                  let same : r' ≡ r = cc in
                  let (local, k, g1) = >>=-eq-some (file path) _ g in
                  let (hash_r, w, g2) = >>=-eq-some (blob_of r') _ g1 in
                  let (remote, u, g3) =
                    >>=-eq-some (to_option (read_blob_bytes lazy hash_r)) _ g2 in
                  let (base, b, g4) =
                    >>=-eq-some
                      (base_bytes sha256 from_json capture_diff file lazy base_root path base_root)
                      _ g3 in
                  (
                    r,
                    l,
                    e,
                    f,
                    hash_r,
                    rw (sym same) (blob_of-Writes r' hash_r w),
                    hash_l,
                    left_l,
                    named,
                    local,
                    k,
                    remote,
                    to_option-ok (read_blob_bytes lazy hash_r) u,
                    base,
                    (base_bytes-BaseIs base_root path base).0 b,
                    merged_bytes-clean (merge capture_diff base local remote) bytes g4,
                  )
            ]

    attempt_complete : (path bytes : Bytes) → Resolves path bytes → tried path ≡ some bytes
    unfolding attempt try_line_merge_one
    attempt_complete path bytes
          (r, l, e, f, hash_r, w, hash_l, v, named, local, k, remote, u, base, b, m) =
        rw (e, f, Writes-is_blob_change r hash_r w, Writes-is_blob_change l hash_l v, named)
          (rw (k, Writes-blob_of r hash_r w, u, (base_bytes-BaseIs base_root path base).1 b, m)
            refl)

    abbrev settled : List Bytes → List (Bytes × Bytes) × List Bytes
    settled conflicts =
        resolve_line_merges sha256 from_json capture_diff file lazy base_root is_line_merge
          remote_diff local_diff conflicts

    -- The merges hold what the attempt gave, and the other conflicts remain.
    settled-tried :
        (conflicts : List Bytes) (path : Bytes)
        → (get path (settled conflicts).0 ≡ unless (not (mem path conflicts)) (tried path))
          × (mem path (settled conflicts).1 ≡ (mem path conflicts && is_none (tried path)))
    unfolding resolve_line_merges settle get
    settled-tried [] path = (refl, refl)
    settled-tried (p ∷ conflicts) path =
        let ih = settled-tried conflicts path in
        elim (Bool-cases (bytes_eq p path)) [
          | inl same ↦
              let e : p ≡ path = bytes_eq→eq p path same in
              elim (Option-cases (tried p)) [
                | inl n ↦
                    let here : tried path ≡ none = rw e at n in
                    let ih' = rw here at ih in
                    rw (n, same, here) (ih'.0 ∙ unless_none (not (mem path conflicts)), refl)
                | inr (bytes, k) ↦
                    let here : tried path ≡ some bytes = rw e at k in
                    let ih' = rw here at ih in
                    rw (k, same, here) (refl, ih'.1 ∙ and_false (mem path conflicts))
              ]
          | inr other ↦ elim (Option-cases (tried p)) [
            | inl n ↦ rw (n, other) ih
            | inr (bytes, k) ↦ rw (k, other) ih
          ]
        ]
      where
        unless_none : (b : Bool) → unless {A = Bytes} b none ≡ none
        unless_none true = refl
        unless_none false = refl

    -- A path is among the merges with given bytes exactly if it was in conflict, both sides left a
    -- blob there, the filter names it for line merges, the file in the working tree, the remote's
    -- blob and the base can be read, the base counting as empty where it has no such path, and
    -- their merge is clean with these bytes. A path is among the conflicts that remain exactly if
    -- it was in conflict and this holds of no bytes.
    pub resolve_line_merges_lem :
        (conflicts : List Bytes) (path : Bytes)
        → let parts =
            resolve_line_merges sha256 from_json capture_diff file lazy base_root is_line_merge
              remote_diff local_diff conflicts in
          ((bytes : Bytes)
            → (get path parts.0 ≡ some bytes) ↔ ((mem path conflicts ≡ true) × Resolves path bytes))
          × ((mem path parts.1 ≡ true)
              ↔ ((mem path conflicts ≡ true) × ((bytes : Bytes) → ¬ Resolves path bytes)))
    resolve_line_merges_lem conflicts path =
        let (merges, remain) = settled-tried conflicts path in
        elim (Bool-cases (mem path conflicts)) [
          | inr apart ↦
              let merges' = rw apart at merges in
              let remain' = rw apart at remain in
              (λ bytes. (λ h. cc, λ (m, r). cc), (λ h. cc, λ (m, r). cc))
          | inl listed ↦
              let merges' : get path (settled conflicts).0 ≡ tried path = rw listed at merges in
              let remain' : mem path (settled conflicts).1 ≡ is_none (tried path) =
                rw listed at remain in
              (
                λ bytes. (
                  λ h. (listed, attempt_sound path bytes (sym merges' ∙ h)),
                  λ (m, r). merges' ∙ attempt_complete path bytes r,
                ),
                (
                  λ h. (
                    listed,
                    λ bytes r.
                        let k = attempt_complete path bytes r in
                        let h' = rw k at (sym remain' ∙ h) in cc,
                  ),
                  λ (m, refused). remain' ∙ (elim (Option-cases (tried path)) [
                    | inl n ↦ rw n refl
                    | inr (bytes, k) ↦ absurd (refused bytes (attempt_sound path bytes k))
                  ]),
                ),
              )
        ]
