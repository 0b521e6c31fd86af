-- ===== src/Pull/Diff/Reported.antt =====
-- What `diff_recursive` of src/commands/pull.rs reports of a blob of the target.
use omemfs.Prelude.{
  ℕ, ◌≡◌, refl, sym, ap, ◌∙◌, inl, inr, true, not, ◌||◌, List, [], ◌∷◌, Option, none, some,
  if◌then◌else◌, find, Bool-cases, Option-cases,
}
use omemfs.Prelude.Bytes.{Bytes, bytes_eq, bytes_eq→eq, bytes_eq_refl}
use omemfs.Prelude.Errors.{ok}
use omemfs.Prelude.Maps.{get, insert, get-insert}
use omemfs.Object.Digest.{Digest, digest_eq}
use omemfs.Object.Entry.{TreeEntry, blob, tree, symlink, entry_name}
use omemfs.Object.Entry.Sorting.{find_name, has_name, DistinctNames}
use omemfs.Trees.Store.{Store}
use omemfs.Trees.Read.{read_tree}
use omemfs.Trees.Walk.{done, >>=-eq-done}
use omemfs.Pull.{Diff, DiffEntry, added, modified}
use omemfs.Pull.Diff.{Mark, by_name, mode_eq, diff_blob, base_tree}
use omemfs.Pull.Diff.Arms.{done_injective}

-- What a path over a base entry is reported as, where the target has a blob there.
abbrev pub expected : Option TreeEntry → Digest → ℕ → Option ℕ → Option Bytes → Option DiffEntry
expected (some (blob _ base_hash _ _ base_mode)) hash size mtime mode =
    if not (digest_eq base_hash hash) || not (mode_eq base_mode mode)
    then some (modified hash size mtime mode)
    else none
expected _ hash size mtime mode = some (added hash size mtime mode)

pub mode_eq_refl : (mode : Option Bytes) → mode_eq mode mode ≡ true
unfolding mode_eq
mode_eq_refl none = refl
mode_eq_refl (some m) = bytes_eq_refl m

module _ (sha256 : Bytes → Bytes) (from_json : Bytes → Option (List TreeEntry)) (s : Store) where
  -- The trees on the way down a path have distinct names, and the path ends at the entry.
  unfoldable pub Leads : Digest → Bytes → List Bytes → TreeEntry → Type 0
  Leads root name [] e =
      (es : List TreeEntry) × (read_tree sha256 from_json s root ≡ ok es)
      × DistinctNames es
      × (find_name name es ≡ some e)
  Leads root name (next ∷ names) e =
      (es : List TreeEntry) × (read_tree sha256 from_json s root ≡ ok es)
      × DistinctNames es
      × (n : Bytes) × (h : Digest) × (t : Option ℕ) × (z : ℕ) × (c : ℕ) × (find_name name es
          ≡ some (tree n h t z c))
      × Leads h next names e

  -- What a base has at a path: nothing without a base, or where something else than a tree is in the
  -- way.
  unfoldable pub Has : Option Digest → Bytes → List Bytes → Option TreeEntry → Type 0
  Has none name names old = old ≡ none
  Has (some base) name [] old =
      (es : List TreeEntry) × (read_tree sha256 from_json s base ≡ ok es)
      × DistinctNames es
      × (find_name name es ≡ old)
  Has (some base) name (next ∷ names) old =
      (es : List TreeEntry) × (read_tree sha256 from_json s base ≡ ok es)
      × DistinctNames es
      × Has (base_tree (find_name name es)) next names old

  pub ok_injective : {a b : List TreeEntry} → ok a ≡ ok b → a ≡ b
  ok_injective f = cc

  pub Has-Leads :
      (root : Digest) (name : Bytes) (names : List Bytes) (e : TreeEntry) (old : Option TreeEntry)
      → Leads root name names e
      → Has (some root) name names old
      → old ≡ some e
  unfolding Leads Has base_tree
  Has-Leads root name [] e old (es, r, _, f) (fs, q, _, g) =
      sym g ∙ ap (find_name name) (ok_injective (sym q ∙ r)) ∙ f
  Has-Leads root name (next ∷ names) e old (es, r, _, n, h, t, z, c, f, more) (fs, q, _, rest) =
      let at : find_name name fs ≡ some (tree n h t z c) =
        ap (find_name name) (ok_injective (sym q ∙ r)) ∙ f in
      Has-Leads h next names e old more (rw at at rest)

pub get-by_name :
    (name : Bytes) (es : List TreeEntry) (acc : List (Bytes × TreeEntry))
    → DistinctNames es
    → get name (by_name es acc) ≡ elim (find_name name es) [ none ↦ get name acc | some e ↦ some e ]
unfolding by_name find_name
get-by_name name [] acc d = refl
get-by_name name (e ∷ es) acc d =
    get-by_name name es (insert (entry_name e) e acc) d.1
    ∙ (elim (Bool-cases (bytes_eq (entry_name e) name)) [
      | inl same ↦
          let here : find (has_name name) es ≡ none =
            ap (λ k. find (has_name k) es) (sym (bytes_eq→eq (entry_name e) name same)) ∙ d.0 in
          rw (here, same) (get-insert name (entry_name e) e acc ∙ rw same refl)
      | inr differs ↦ rw differs (elim (Option-cases (find (has_name name) es)) [
        | inl gone ↦ rw gone (get-insert name (entry_name e) e acc ∙ rw differs refl)
        | inr (found, there) ↦ rw there refl
      ])
    ])

-- One entry of the target at its own path.
pub diff_blob-expected :
    (mark : Mark) (at : Bytes) (hash : Digest) (size : ℕ) (mtime : Option ℕ) (mode : Option Bytes)
    (old : Option TreeEntry) (result after : Diff)
    → get at result ≡ none
    → diff_blob mark at hash size mtime mode old result ≡ done after
    → get at after ≡ expected old hash size mtime mode
unfolding diff_blob
diff_blob-expected mark at hash size mtime mode none result after new e =
    ap (get at) (done_injective e)
    ∙ get-insert at at (added hash size mtime mode) result
    ∙ rw (bytes_eq_refl at) refl
diff_blob-expected mark at hash size mtime mode (some (symlink n l t)) result after new e =
    ap (get at) (done_injective e)
    ∙ get-insert at at (added hash size mtime mode) result
    ∙ rw (bytes_eq_refl at) refl
diff_blob-expected mark at hash size mtime mode (some (tree n d t z c)) result after new e =
    let (inner, f, g) = >>=-eq-done (mark d at result) _ e in
    ap (get at) (done_injective g)
    ∙ get-insert at at (added hash size mtime mode) inner
    ∙ rw (bytes_eq_refl at) refl
diff_blob-expected mark at hash size mtime mode (some (blob n d t z o)) result after new e =
    elim (Bool-cases (not (digest_eq d hash) || not (mode_eq o mode))) [
      | inl changed ↦ rw changed (
          ap (get at) (done_injective (rw changed at e))
          ∙ get-insert at at (modified hash size mtime mode) result
          ∙ rw (bytes_eq_refl at) refl)
      | inr same ↦ rw same (ap (get at) (done_injective (rw same at e)) ∙ new)
    ]
