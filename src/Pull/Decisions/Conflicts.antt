-- ===== src/Pull/Decisions/Conflicts.antt =====
-- What `classify_conflicts` of src/commands/pull.rs takes for a conflict, in terms of what each side
-- did to the paths.
use omemfs.Prelude.{
  ◌≡◌, ◌⊎◌, refl, ap, ◌∙◌, true, List, [], ◌∷◌, ◌++◌, some, any, Bool-cases, Option-cases, inl, inr,
  arith, ◌==◌,
}
use omemfs.Prelude.Bytes.{
  Bytes, codes, bytes_eq, bytes_eq→eq, bytes_eq_refl, strip_prefix, strip_prefix-append,
  strip_prefix_sound,
}
use omemfs.Prelude.Maps.{get}
use omemfs.Object.Digest.{Digest}
use omemfs.Object.Names.Paths.{split_path, split_path-append}
use omemfs.Trees.Change.Stored.{digest_eq_iff}
use omemfs.Pull.{
  DiffEntry, added, modified, deleted, added_empty_dir, symlinked, Diff, same_content, outside_git,
  is_local_change_under_added_tree,
}

-- A change that leaves a blob of this content, and one that leaves a symlink to this text.
abbrev pub Writes : DiffEntry → Digest → Type 0
Writes (added hash size mtime mode) content = hash ≡ content
Writes (modified hash size mtime mode) content = hash ≡ content
Writes _ content = ⊥

abbrev pub LinksTo : DiffEntry → Bytes → Type 0
LinksTo (symlinked target mtime was_present) text = target ≡ text
LinksTo _ text = ⊥

-- Two changes leave the same: one blob, nothing, an empty directory, or one symlink. Metadata does not
-- count, and no change leaves the same as an added tree does.
abbrev pub SameContent : DiffEntry → DiffEntry → Type 0
SameContent a b =
    ((content : Digest) × Writes a content × Writes b content)
    ⊎ (((a ≡ deleted) × (b ≡ deleted))
        ⊎ (((a ≡ added_empty_dir) × (b ≡ added_empty_dir))
            ⊎ ((text : Bytes) × LinksTo a text × LinksTo b text)))

pub same_content_sound : (a b : DiffEntry) → same_content a b ≡ true → SameContent a b
unfolding same_content
same_content_sound (added ha z m o) (added hb z' m' o') h =
    inl (hb, (digest_eq_iff ha hb).0 h, refl)
same_content_sound (added ha z m o) (modified hb z' m' o') h =
    inl (hb, (digest_eq_iff ha hb).0 h, refl)
same_content_sound (modified ha z m o) (added hb z' m' o') h =
    inl (hb, (digest_eq_iff ha hb).0 h, refl)
same_content_sound (modified ha z m o) (modified hb z' m' o') h =
    inl (hb, (digest_eq_iff ha hb).0 h, refl)
same_content_sound deleted deleted h = inr (inl (refl, refl))
same_content_sound added_empty_dir added_empty_dir h = inr (inr (inl (refl, refl)))
same_content_sound (symlinked ta m p) (symlinked tb m' p') h =
    inr (inr (inr (tb, bytes_eq→eq ta tb h, refl)))
same_content_sound _ _ h = cc

same_blob : (a b : DiffEntry) (c : Digest) → Writes a c → Writes b c → same_content a b ≡ true
unfolding same_content
same_blob (added ha z m o) (added hb z' m' o') c x y = rw (x, y) (digest_eq_iff c c).1
same_blob (added ha z m o) (modified hb z' m' o') c x y = rw (x, y) (digest_eq_iff c c).1
same_blob (modified ha z m o) (added hb z' m' o') c x y = rw (x, y) (digest_eq_iff c c).1
same_blob (modified ha z m o) (modified hb z' m' o') c x y = rw (x, y) (digest_eq_iff c c).1
same_blob (added ha z m o) _ c x y = absurd y
same_blob (modified ha z m o) _ c x y = absurd y
same_blob _ _ c x y = absurd x

same_target : (a b : DiffEntry) (t : Bytes) → LinksTo a t → LinksTo b t → same_content a b ≡ true
unfolding same_content
same_target (symlinked ta m p) (symlinked tb m' p') t x y = rw (x, y) (bytes_eq_refl t)
same_target (symlinked ta m p) _ t x y = absurd y
same_target _ _ t x y = absurd x

pub same_content_complete : (a b : DiffEntry) → SameContent a b → same_content a b ≡ true
unfolding same_content
same_content_complete a b (inl (c, x, y)) = same_blob a b c x y
same_content_complete a b (inr (inl (x, y))) = rw (x, y) refl
same_content_complete a b (inr (inr (inl (x, y)))) = rw (x, y) refl
same_content_complete a b (inr (inr (inr (t, x, y)))) = same_target a b t x y

-- The `.git` directory of a directory, and what lies in it, by the path from there.
abbrev pub InGit : Bytes → Type 0
InGit rest = (rest ≡ codes ".git") ⊎ ((below : Bytes) × (rest ≡ codes ".git" ++ (b'/' ∷ below)))

-- What lies in a directory, but for its `.git`.
abbrev pub Below : Bytes → Bytes → Type 0
Below directory path = (rest : Bytes) × (path ≡ directory ++ (b'/' ∷ rest)) × ¬ InGit rest

-- The first name of a path ends it, or a slash follows.
first_name :
    (path : Bytes)
    → (first : Bytes) × (names : List Bytes) × (split_path path ≡ first ∷ names)
      × ((path ≡ first) ⊎ ((below : Bytes) × (path ≡ first ++ (b'/' ∷ below))))
unfolding split_path
first_name [] = ([], [], refl, inl refl)
first_name (c ∷ path) =
    let (first, names, e, ends) = first_name path in
    elim (Bool-cases (c == b'/')) [
      | inl slash ↦
          ([], first ∷ names, rw (e, slash) refl, inr (path, ap (λ x. x ∷ path) (ground arith)))
      | inr other ↦ (
        c ∷ first,
        names,
        rw (e, other) refl,
        elim ends [
          | inl whole ↦ inl (ap (λ l. c ∷ l) whole)
          | inr (below, k) ↦ inr (below, ap (λ l. c ∷ l) k)
        ],
      )
    ]

outside_git_sound : (rest : Bytes) → outside_git (some rest) ≡ true → ¬ InGit rest
unfolding outside_git split_path bytes_eq
outside_git_sound rest h (inl e) = let h' = rw e at h in cc
outside_git_sound rest h (inr (below, e)) =
    let h' = rw (e, split_path-append (codes ".git") below) at h in cc

outside_git_complete : (rest : Bytes) → ¬ InGit rest → outside_git (some rest) ≡ true
unfolding outside_git
outside_git_complete rest h =
    let (first, names, e, ends) = first_name rest in
    elim (Bool-cases (bytes_eq first (codes ".git"))) [
      | inl git ↦
          let k = bytes_eq→eq first (codes ".git") git in
          absurd (
            h (elim ends [
              | inl whole ↦ inl (whole ∙ k)
              | inr (below, f) ↦ inr (below, f ∙ ap (λ l. l ++ (b'/' ∷ below)) k)
            ]))
      | inr other ↦ rw (e, outside_git) (rw other refl)
    ]

under_sound :
    (directory path : Bytes)
    → is_local_change_under_added_tree directory path ≡ true
    → Below directory path
unfolding is_local_change_under_added_tree outside_git
under_sound directory path h = elim (Option-cases (strip_prefix directory path)) [
  | inl none' ↦ let h' = rw none' at h in cc
  | inr (r, e) ↦ elim (Option-cases (strip_prefix (codes "/") r)) [
    | inl none' ↦ let h' = rw (e, none') at h in cc
    | inr (rest, f) ↦ (
      rest,
      strip_prefix_sound directory path r e
          ∙ ap (λ l. directory ++ l) (strip_prefix_sound (codes "/") r rest f),
      outside_git_sound rest (rw (e, f) at h),
    )
  ]
]

under_complete :
    (directory path : Bytes)
    → Below directory path
    → is_local_change_under_added_tree directory path ≡ true
unfolding is_local_change_under_added_tree
under_complete directory path (rest, e, h) =
    rw (e, strip_prefix-append directory (b'/' ∷ rest), strip_prefix-append (codes "/") rest)
      (outside_git_complete rest h)

-- A local change somewhere in a directory, but for its `.git`.
abbrev pub ChangesBelow : Diff → Bytes → Type 0
ChangesBelow diff directory =
    (path : Bytes) × (entry : DiffEntry) × (get path diff ≡ some entry) × Below directory path

pub any_under_sound :
    (diff : Diff) (directory : Bytes)
    → any (λ l. is_local_change_under_added_tree directory l.0) diff ≡ true
    → ChangesBelow diff directory
unfolding get
any_under_sound [] directory h = cc
any_under_sound ((key, entry) ∷ diff) directory h =
    elim (Bool-cases (is_local_change_under_added_tree directory key)) [
      | inl here ↦ (key, entry, rw (bytes_eq_refl key) refl, under_sound directory key here)
      | inr apart ↦
          let (path, found, e, b) = any_under_sound diff directory (rw apart at h) in
          elim (Bool-cases (bytes_eq key path)) [
            | inl same ↦ (path, entry, rw same refl, b)
            | inr differs ↦ (path, found, rw differs e, b)
          ]
    ]

pub any_under_complete :
    (diff : Diff) (directory : Bytes)
    → ChangesBelow diff directory
    → any (λ l. is_local_change_under_added_tree directory l.0) diff ≡ true
unfolding get
any_under_complete [] directory (path, found, e, b) = cc
any_under_complete ((key, entry) ∷ diff) directory (path, found, e, b) =
    elim (Bool-cases (bytes_eq key path)) [
      | inl same ↦ rw (bytes_eq→eq key path same, under_complete directory path b) refl
      | inr differs ↦
          let later = any_under_complete diff directory (path, found, rw differs at e, b) in
          ground (arith, later)
    ]
