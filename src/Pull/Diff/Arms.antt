-- ===== src/Pull/Diff/Arms.antt =====
-- What each arm of `diff_recursive` in src/commands/pull.rs changes: its own path and those below.
use omemfs.Prelude.{
  ℕ, ◌≡◌, refl, sym, ap, ◌∙◌, inl, inr, Bool, true, false, not, ◌&&◌, ◌||◌, [], ◌∷◌, Option, none,
  some, if◌then◌else◌, ltb, leb, append-nil, Bool-cases, length, ◌==◌,
}
use omemfs.Prelude.Bytes.{Bytes, bytes_eq, bytes_eq→eq}
use omemfs.Prelude.Errors.{Result, ok, err}
use omemfs.Prelude.Maps.{get, insert, get-insert}
use omemfs.Object.Digest.{Digest, digest_eq}
use omemfs.Object.Entry.{TreeEntry, blob, tree, symlink}
use omemfs.Trees.Walk.{done, lift, ◌>>=◌, >>=-eq-done}
use omemfs.Pull.{Diff, DiffEntry, added, modified, deleted, added_tree, added_empty_dir, symlinked}
use omemfs.Pull.Diff.{
  Mark, Recurse, extend, mode_eq, is_none, diff_blob, diff_symlink, diff_tree, base_tree,
  delete_replaced, empty_dir,
}
use omemfs.Pull.Diff.Frame.{parts, Under, Leaves, MarkLeaves}

pub done_injective {ℓ} : {A : Type ℓ} {a b : A} → done a ≡ done b → b ≡ a
done_injective f = cc

pub lift_ok {ℓ} : {A : Type ℓ} {r : Result A} {a : A} → lift r ≡ done a → r ≡ ok a
lift_ok {r = err e} f = cc
lift_ok {r = ok a} f = cc

pub get-extend :
    (path : Bytes) (other result : Diff)
    → get path other ≡ none
    → get path (extend result other) ≡ get path result
unfolding extend get
get-extend path [] result h = refl
get-extend path ((key, entry) ∷ other) result h = elim (Bool-cases (bytes_eq key path)) [
  | inl same ↦ let h' = rw same at h in cc
  | inr differs ↦
      get-extend path other (insert key entry result) (rw differs at h)
      ∙ get-insert path key entry result
      ∙ rw differs refl
]

abbrev pub RecurseLeaves : Recurse → Type 0
RecurseLeaves recurse =
    (base : Option Digest) (target : Digest) (prefix : Bytes) (in_git : Bool) (result : Diff)
    → Leaves prefix result (recurse base target prefix in_git result)

pub get-insert_at :
    (at path : Bytes) (value : DiffEntry) (result : Diff)
    → ¬ Under at path
    → get path (insert at value result) ≡ get path result
get-insert_at at path value result outside =
    get-insert path at value result ∙ (elim (Bool-cases (bytes_eq at path)) [
      | inl same ↦
          absurd
            (outside ([], ap parts (sym (bytes_eq→eq at path same)) ∙ sym (append-nil (parts at))))
      | inr differs ↦ rw differs refl
    ])

-- What an entry at the path `at` changes.
module _ (at : Bytes) where
  inserted-Leaves :
      (value : DiffEntry) (result : Diff) → Leaves at result (done (insert at value result))
  inserted-Leaves value result path after outside e =
      ap (get path) (done_injective e) ∙ get-insert_at at path value result outside

  marked-Leaves :
      (mark : Mark) (old : Digest) (value : DiffEntry) (result : Diff)
      → MarkLeaves mark
      → Leaves at result (do inner ← mark old at result; done (insert at value inner))
  marked-Leaves mark old value result m path after outside e =
      let (inner, f, g) = >>=-eq-done (mark old at result) _ e in
      inserted-Leaves value inner path after outside g ∙ m old at result path inner outside f

  if_inserted-Leaves :
      (test : Bool) (value : DiffEntry) (result : Diff)
      → Leaves at result (if test then done (insert at value result) else done result)
  if_inserted-Leaves true value result path after outside e =
      inserted-Leaves value result path after outside e
  if_inserted-Leaves false value result path after outside e = ap (get path) (done_injective e)

  pub diff_blob-Leaves :
      (mark : Mark) (hash : Digest) (size : ℕ) (mtime : Option ℕ) (mode : Option Bytes)
      (old : Option TreeEntry) (result : Diff)
      → MarkLeaves mark
      → Leaves at result (diff_blob mark at hash size mtime mode old result)
  unfolding diff_blob
  diff_blob-Leaves mark hash size mtime mode none result m =
      inserted-Leaves (added hash size mtime mode) result
  diff_blob-Leaves mark hash size mtime mode (some (blob n d t z o)) result m =
      if_inserted-Leaves (not (digest_eq d hash) || not (mode_eq o mode))
        (modified hash size mtime mode) result
  diff_blob-Leaves mark hash size mtime mode (some (symlink n l t)) result m =
      inserted-Leaves (added hash size mtime mode) result
  diff_blob-Leaves mark hash size mtime mode (some (tree n d t z c)) result m =
      marked-Leaves mark d (added hash size mtime mode) result m

  pub diff_symlink-Leaves :
      (mark : Mark) (target : Bytes) (mtime : Option ℕ) (old : Option TreeEntry) (result : Diff)
      → MarkLeaves mark
      → Leaves at result (diff_symlink mark at target mtime old result)
  unfolding diff_symlink
  diff_symlink-Leaves mark target mtime none result m =
      inserted-Leaves (symlinked target mtime false) result
  diff_symlink-Leaves mark target mtime (some (blob n d t z o)) result m =
      inserted-Leaves (symlinked target mtime true) result
  diff_symlink-Leaves mark target mtime (some (symlink n l t)) result m =
      if_inserted-Leaves (not (bytes_eq l target)) (symlinked target mtime true) result
  diff_symlink-Leaves mark target mtime (some (tree n d t z c)) result m =
      marked-Leaves mark d (symlinked target mtime true) result m

  pub get-delete_replaced :
      (path : Bytes) (old : Option TreeEntry) (result : Diff)
      → ¬ Under at path
      → get path (delete_replaced at old result) ≡ get path result
  unfolding delete_replaced
  get-delete_replaced path none result outside = refl
  get-delete_replaced path (some (tree n d t z c)) result outside = refl
  get-delete_replaced path (some (blob n d t z o)) result outside =
      get-insert_at at path deleted result outside
  get-delete_replaced path (some (symlink n l t)) result outside =
      get-insert_at at path deleted result outside

  pub get-empty_dir :
      (path : Bytes) (base : Option Digest) (before result : Diff)
      → ¬ Under at path
      → get path (empty_dir at base before result) ≡ get path result
  unfolding empty_dir
  get-empty_dir path base before result outside =
      elim (Bool-cases (is_none base && (length result == length before))) [
        | inl empty ↦ rw empty (get-insert_at at path added_empty_dir result outside)
        | inr full ↦ rw full refl
      ]

  pub diff_tree-Leaves :
      (recurse : Recurse) (threshold : ℕ) (in_git child_in_git : Bool) (hash : Digest) (size : ℕ)
      (mtime : Option ℕ) (blob_count : ℕ) (old : Option TreeEntry) (result : Diff)
      → RecurseLeaves recurse
      → Leaves at result
          (diff_tree recurse threshold in_git child_in_git at hash size mtime blob_count old result)
  unfolding diff_tree
  diff_tree-Leaves recurse threshold in_git child_in_git hash size mtime blob_count old result r
        path after outside e =
      let replaced = delete_replaced at old result in
      elim (Bool-cases
        (is_none (base_tree old) && ltb 0 threshold && leb threshold size && not in_git)) [
          | inl stub ↦
              inserted-Leaves (added_tree hash size mtime blob_count) replaced path after outside
                (rw stub at e)
              ∙ get-delete_replaced path old result outside
          | inr walk ↦
              let (inner, f, g) =
                >>=-eq-done (recurse (base_tree old) hash at child_in_git replaced) _
                  (rw walk at e) in
              ap (get path) (done_injective g)
              ∙ get-empty_dir path (base_tree old) replaced inner outside
              ∙ r (base_tree old) hash at child_in_git replaced path inner outside f
              ∙ get-delete_replaced path old result outside
        ]
