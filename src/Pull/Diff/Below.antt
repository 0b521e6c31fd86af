-- ===== src/Pull/Diff/Below.antt =====
-- A blob of the target below a directory: what the arm of a tree does to its path, and what the
-- base has there.
use omemfs.Prelude.{
  ℕ, ◌≡◌, refl, sym, ap, ◌∙◌, inl, inr, Bool, false, not, ◌&&◌, List, [], ◌∷◌, Option, none, some,
  ltb, leb, Bool-cases, Option-cases, length, ◌==◌, arith,
}
use omemfs.Prelude.Bytes.{Bytes, bytes_eq}
use omemfs.Prelude.Errors.{ok}
use omemfs.Prelude.Maps.{get, insert, get-insert}
use omemfs.Object.Digest.{Digest}
use omemfs.Object.Entry.{TreeEntry, blob, tree, symlink}
use omemfs.Object.Entry.Sorting.{find_name, DistinctNames}
use omemfs.Trees.Store.{Store}
use omemfs.Trees.Read.{read_tree}
use omemfs.Trees.Walk.{done, >>=-eq-done}
use omemfs.Pull.{Diff, DiffEntry, deleted, added_empty_dir}
use omemfs.Pull.Diff.{
  Recurse, is_none, diff_tree, base_tree, delete_replaced, empty_dir, load_base_entries,
}
use omemfs.Pull.Diff.Arms.{done_injective}
use omemfs.Pull.Diff.Reported.{Has, get-by_name}

module _ (at path : Bytes) (differs : bytes_eq at path ≡ false) where
  get-insert-other :
      (value : DiffEntry) (result : Diff) → get path (insert at value result) ≡ get path result
  get-insert-other value result = get-insert path at value result ∙ rw differs refl

  pub delete_replaced-other :
      (old : Option TreeEntry) (result : Diff)
      → get path (delete_replaced at old result) ≡ get path result
  unfolding delete_replaced
  delete_replaced-other none result = refl
  delete_replaced-other (some (tree n d t z c)) result = refl
  delete_replaced-other (some (blob n d t z o)) result = get-insert-other deleted result
  delete_replaced-other (some (symlink n l t)) result = get-insert-other deleted result

  pub empty_dir-other :
      (base : Option Digest) (before result : Diff)
      → get path (empty_dir at base before result) ≡ get path result
  unfolding empty_dir
  empty_dir-other base before result =
      elim (Bool-cases (is_none base && (length result == length before))) [
        | inl empty ↦ rw empty (get-insert-other added_empty_dir result)
        | inr full ↦ rw full refl
      ]

  -- Without a threshold the arm of a tree is the walk below it, and else changes its own path only.
  pub diff_tree-walks :
      (recurse : Recurse) (in_git child_in_git : Bool) (hash : Digest) (size : ℕ) (mtime : Option ℕ)
      (blob_count : ℕ) (old : Option TreeEntry) (result after : Diff)
      → diff_tree recurse 0 in_git child_in_git at hash size mtime blob_count old result
        ≡ done after
      → (before inner : Diff) × (get path before ≡ get path result)
        × (recurse (base_tree old) hash at child_in_git before ≡ done inner)
        × (get path after ≡ get path inner)
  unfolding diff_tree
  diff_tree-walks recurse in_git child_in_git hash size mtime blob_count old result after e =
      let replaced = delete_replaced at old result in
      let unstubbed : (is_none (base_tree old) && ltb 0 0 && leb 0 size && not in_git) ≡ false =
        ground arith in
      let (inner, f, g) =
        >>=-eq-done (recurse (base_tree old) hash at child_in_git replaced) _ (rw unstubbed at e) in
      (
        replaced,
        inner,
        delete_replaced-other old result,
        f,
        ap (get path) (done_injective g) ∙ empty_dir-other (base_tree old) replaced inner,
      )

module _ (sha256 : Bytes → Bytes) (from_json : Bytes → Option (List TreeEntry)) (s : Store) where
  loaded :
      (base : Digest) (es : List TreeEntry) (entries : List (Bytes × TreeEntry)) (name : Bytes)
      → read_tree sha256 from_json s base ≡ ok es
      → DistinctNames es
      → load_base_entries sha256 from_json s (some base) ≡ done entries
      → get name entries ≡ find_name name es
  unfolding load_base_entries get
  loaded base es entries name reads d e =
      ap (get name) (done_injective (rw reads at e))
      ∙ get-by_name name es [] d
      ∙ (elim (Option-cases (find_name name es)) [
        | inl gone ↦ rw gone refl
        | inr (found, there) ↦ rw there refl
      ])

  -- The base's entry of the first name, for a path of one name and for a longer one.
  pub load_base_entries-old :
      (base : Option Digest) (entries : List (Bytes × TreeEntry)) (name : Bytes)
      (old : Option TreeEntry)
      → Has sha256 from_json s base name [] old
      → load_base_entries sha256 from_json s base ≡ done entries
      → get name entries ≡ old
  unfolding load_base_entries get Has
  load_base_entries-old none entries name old has e = ap (get name) (done_injective e) ∙ sym has
  load_base_entries-old (some base) entries name old (es, reads, d, f) e =
      loaded base es entries name reads d e ∙ f

  pub load_base_entries-Has :
      (base : Option Digest) (entries : List (Bytes × TreeEntry)) (name next : Bytes)
      (names : List Bytes) (old : Option TreeEntry)
      → Has sha256 from_json s base name (next ∷ names) old
      → load_base_entries sha256 from_json s base ≡ done entries
      → Has sha256 from_json s (base_tree (get name entries)) next names old
  unfolding load_base_entries get Has base_tree
  load_base_entries-Has none entries name next names old has e = rw (done_injective e) has
  load_base_entries-Has (some base) entries name next names old (es, reads, d, rest) e =
      rw (loaded base es entries name reads d e) rest
