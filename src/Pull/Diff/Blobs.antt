-- ===== src/Pull/Diff/Blobs.antt =====
-- What `diff_trees` of src/commands/pull.rs reports at the blobs and the symlinks of the target.
use omemfs.Prelude.{
  ℕ, ◌≡◌, refl, sym, ap, ◌∙◌, inl, inr, true, false, not, if◌then◌else◌, List, [], ◌∷◌, All, Option,
  none, some, Bool-cases,
}
use omemfs.Prelude.Bytes.{Bytes, bytes_eq, bytes_eq_refl}
use omemfs.Prelude.Maps.{get, get-insert}
use omemfs.Object.Digest.{Digest}
use omemfs.Object.Entry.{TreeEntry, blob, tree, symlink, entry_name}
use omemfs.Object.Names.Paths.{join_path, path_of, IsName}
use omemfs.Trees.Store.{Store}
use omemfs.Trees.Change.Stored.{digest_eq_iff}
use omemfs.Trees.Walk.{done, >>=-eq-done}
use omemfs.Pull.{Diff, DiffEntry, symlinked}
use omemfs.Pull.Diff.{Mark, diff_blob, diff_symlink, diff_entries, diff_trees}
use omemfs.Pull.Diff.Arms.{done_injective}
use omemfs.Pull.Diff.Reported.{expected, Leads, Has, diff_blob-expected, mode_eq_refl}
use omemfs.Pull.Diff.Entries.{RoundReports, diff_trees-value}

-- What a path over a base entry is reported as, where the target has a symlink there.
abbrev pub expected_symlink : Option TreeEntry → Bytes → Option ℕ → Option DiffEntry
expected_symlink none target mtime = some (symlinked target mtime false)
expected_symlink (some (symlink _ base_target _)) target mtime =
    if not (bytes_eq base_target target) then some (symlinked target mtime true) else none
expected_symlink _ target mtime = some (symlinked target mtime true)

diff_symlink-expected_symlink :
    (mark : Mark) (at target : Bytes) (mtime : Option ℕ) (old : Option TreeEntry)
    (result after : Diff)
    → get at result ≡ none
    → diff_symlink mark at target mtime old result ≡ done after
    → get at after ≡ expected_symlink old target mtime
unfolding diff_symlink
diff_symlink-expected_symlink mark at target mtime none result after new e =
    ap (get at) (done_injective e)
    ∙ get-insert at at (symlinked target mtime false) result
    ∙ rw (bytes_eq_refl at) refl
diff_symlink-expected_symlink mark at target mtime (some (blob n d t z o)) result after new e =
    ap (get at) (done_injective e)
    ∙ get-insert at at (symlinked target mtime true) result
    ∙ rw (bytes_eq_refl at) refl
diff_symlink-expected_symlink mark at target mtime (some (tree n d t z c)) result after new e =
    let (inner, f, g) = >>=-eq-done (mark d at result) _ e in
    ap (get at) (done_injective g)
    ∙ get-insert at at (symlinked target mtime true) inner
    ∙ rw (bytes_eq_refl at) refl
diff_symlink-expected_symlink mark at target mtime (some (symlink n l t)) result after new e =
    elim (Bool-cases (not (bytes_eq l target))) [
      | inl changed ↦ rw changed (
          ap (get at) (done_injective (rw changed at e))
          ∙ get-insert at at (symlinked target mtime true) result
          ∙ rw (bytes_eq_refl at) refl)
      | inr same ↦ rw same (ap (get at) (done_injective (rw same at e)) ∙ new)
    ]

module _ (sha256 : Bytes → Bytes) (from_json : Bytes → Option (List TreeEntry)) (s : Store) where
  module _ (n : Bytes) (h : Digest) (m : Option ℕ) (z : ℕ) (o : Option Bytes)
      (old : Option TreeEntry) where
    blob_round : RoundReports sha256 from_json s (blob n h m z o) old (expected old h z m o)
    unfolding diff_entries entry_name
    blob_round mark recurse prefix in_git base name before next same at new e =
        let (mid, f, g) =
          >>=-eq-done (diff_blob mark (join_path prefix n) h z m o (get n base) before) _ e in
        ap (get (join_path prefix name)) (done_injective g)
        ∙ diff_blob-expected mark (join_path prefix name) h z m o old before mid new (
            ap (λ x. diff_blob mark (join_path prefix name) h z m o x before) (sym at)
            ∙ ap (λ k. diff_blob mark (join_path prefix k) h z m o (get k base) before) (sym same)
            ∙ f)

    -- Without a stub threshold, let the diff give a result, and let the target have a blob at a
    -- path of valid names, and let the trees along the path, of the target and of the base, have
    -- distinct names. At that path the diff has `added` where the base has no blob there,
    -- `modified` where the base's blob has another hash or mode, each with the target's values, and
    -- nothing where the base's blob has the same hash and mode.
    pub diff_trees-blob :
        (fuel : ℕ) (base : Option Digest) (target : Digest) (name : Bytes) (names : List Bytes)
        (after : Diff)
        → All IsName (name ∷ names)
        → Leads sha256 from_json s target name names (blob n h m z o)
        → Has sha256 from_json s base name names old
        → diff_trees sha256 from_json s 0 fuel base (some target) ≡ done after
        → get (path_of [] (name ∷ names)) after ≡ expected old h z m o
    diff_trees-blob =
        diff_trees-value sha256 from_json s (blob n h m z o) old (expected old h z m o) blob_round
          (λ here. rw (here, (digest_eq_iff h h).1, mode_eq_refl o) refl)

  module _ (n l : Bytes) (m : Option ℕ) (old : Option TreeEntry) where
    symlink_round : RoundReports sha256 from_json s (symlink n l m) old (expected_symlink old l m)
    unfolding diff_entries entry_name
    symlink_round mark recurse prefix in_git base name before next same at new e =
        let (mid, f, g) =
          >>=-eq-done (diff_symlink mark (join_path prefix n) l m (get n base) before) _ e in
        ap (get (join_path prefix name)) (done_injective g)
        ∙ diff_symlink-expected_symlink mark (join_path prefix name) l m old before mid new (
            ap (λ x. diff_symlink mark (join_path prefix name) l m x before) (sym at)
            ∙ ap (λ k. diff_symlink mark (join_path prefix k) l m (get k base) before) (sym same)
            ∙ f)

    -- Without a stub threshold, let the diff give a result, and let the target have a symlink at a
    -- path of valid names, and let the trees along the path, of the target and of the base, have
    -- distinct names. At that path the diff has a symlink with the target's values, as new where
    -- the base has nothing there and as modified where it has something else or a symlink to
    -- another text, and nothing where the base's symlink has the same text.
    pub diff_trees-symlink :
        (fuel : ℕ) (base : Option Digest) (target : Digest) (name : Bytes) (names : List Bytes)
        (after : Diff)
        → All IsName (name ∷ names)
        → Leads sha256 from_json s target name names (symlink n l m)
        → Has sha256 from_json s base name names old
        → diff_trees sha256 from_json s 0 fuel base (some target) ≡ done after
        → get (path_of [] (name ∷ names)) after ≡ expected_symlink old l m
    diff_trees-symlink =
        diff_trees-value sha256 from_json s (symlink n l m) old (expected_symlink old l m)
          symlink_round (λ here. rw (here, bytes_eq_refl l) refl)
