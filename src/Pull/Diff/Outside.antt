-- ===== src/Pull/Diff/Outside.antt =====
-- `diff_recursive` of src/commands/pull.rs changes the result only below its own path.
use omemfs.Prelude.{
  ℕ, zero, suc, ◌≡◌, ap, ◌∙◌, inl, inr, Bool, ◌||◌, List, [], ◌∷◌, Option, none, some, any,
  Bool-cases,
}
use omemfs.Prelude.Bytes.{Bytes, codes, bytes_eq}
use omemfs.Prelude.Errors.{Result-cases}
use omemfs.Prelude.Maps.{get, insert, AllKeys, AllKeys-insert}
use omemfs.Object.Digest.{Digest}
use omemfs.Object.Entry.{TreeEntry, blob, tree, symlink, entry_name}
use omemfs.Object.Names.Paths.{join_path, IsName}
use omemfs.Trees.Store.{Store}
use omemfs.Trees.Read.{read_tree, tree_contains_git_dir}
use omemfs.Trees.Walk.{done, lift, >>=-eq-done}
use omemfs.Pull.{Diff, deleted}
use omemfs.Pull.Diff.{
  Mark, Recurse, mark_deleted_tree, extend, delete_missing, by_name, diff_blob, diff_symlink,
  diff_tree, diff_entries, load_base_entries, same_tree, diff_recursive,
}
use omemfs.Pull.Diff.Frame.{
  Under-join_path, Leaves, get-insert_outside, AllNames, MarkLeaves, read_tree-AllNames,
  mark_deleted_tree-Leaves,
}
use omemfs.Pull.Diff.Arms.{
  done_injective, lift_ok, get-extend, RecurseLeaves, diff_blob-Leaves, diff_symlink-Leaves,
  diff_tree-Leaves,
}

by_name-AllKeys :
    (es : List TreeEntry) (entries : List (Bytes × TreeEntry))
    → AllNames es
    → AllKeys IsName entries
    → AllKeys IsName (by_name es entries)
unfolding by_name
by_name-AllKeys [] entries v k = k
by_name-AllKeys (e ∷ es) entries v k =
    by_name-AllKeys es (insert (entry_name e) e entries) v.1
      (AllKeys-insert IsName (entry_name e) e entries v.0 k)

delete_missing-Leaves :
    (mark : Mark)
    → MarkLeaves mark
    → (prefix : Bytes) (targets : List TreeEntry) (base : List (Bytes × TreeEntry)) (result : Diff)
    → AllKeys IsName base
    → Leaves prefix result (delete_missing mark prefix targets base result)
unfolding delete_missing get
delete_missing-Leaves mark m prefix targets [] result v path after outside e =
    ap (get path) (done_injective e)
delete_missing-Leaves mark m prefix targets ((name, tree n d t z c) ∷ base) result v path after
      outside e =
    elim (Bool-cases (any (λ f. bytes_eq (entry_name f) name) targets)) [
      | inl there ↦
          delete_missing-Leaves mark m prefix targets base result v.1 path after outside
            (rw there at e)
      | inr gone ↦
          let (sub, f, g) = >>=-eq-done (mark d (join_path prefix name) []) _ (rw gone at e) in
          delete_missing-Leaves mark m prefix targets base (extend result sub) v.1 path after
            outside g
          ∙ get-extend path sub result (
              m d (join_path prefix name) [] path sub
                (λ u. outside (Under-join_path prefix name path v.0 u)) f)
    ]
delete_missing-Leaves mark m prefix targets ((name, blob n d t z o) ∷ base) result v path after
      outside e =
    elim (Bool-cases (any (λ f. bytes_eq (entry_name f) name) targets)) [
      | inl there ↦
          delete_missing-Leaves mark m prefix targets base result v.1 path after outside
            (rw there at e)
      | inr gone ↦
          delete_missing-Leaves mark m prefix targets base
            (insert (join_path prefix name) deleted result) v.1 path after outside (rw gone at e)
          ∙ get-insert_outside prefix name path deleted result v.0 outside
    ]
delete_missing-Leaves mark m prefix targets ((name, symlink n l t) ∷ base) result v path after
      outside e =
    elim (Bool-cases (any (λ f. bytes_eq (entry_name f) name) targets)) [
      | inl there ↦
          delete_missing-Leaves mark m prefix targets base result v.1 path after outside
            (rw there at e)
      | inr gone ↦
          delete_missing-Leaves mark m prefix targets base
            (insert (join_path prefix name) deleted result) v.1 path after outside (rw gone at e)
          ∙ get-insert_outside prefix name path deleted result v.0 outside
    ]

module _ (sha256 : Bytes → Bytes) (from_json : Bytes → Option (List TreeEntry)) (s : Store)
    (threshold : ℕ) where
  diff_entries-Leaves :
      (mark : Mark) (recurse : Recurse) (prefix : Bytes) (in_git : Bool)
      (base : List (Bytes × TreeEntry)) (entries : List TreeEntry) (result : Diff)
      → MarkLeaves mark
      → RecurseLeaves recurse
      → AllNames entries
      → Leaves prefix result
          (diff_entries sha256 from_json s threshold mark recurse prefix in_git base entries result)
  unfolding diff_entries entry_name
  diff_entries-Leaves mark recurse prefix in_git base [] result m r v path after outside e =
      ap (get path) (done_injective e)
  diff_entries-Leaves mark recurse prefix in_git base (blob n d t z o ∷ es) result m r v path after
        outside e =
      let (next, f, g) =
        >>=-eq-done (diff_blob mark (join_path prefix n) d z t o (get n base) result) _ e in
      diff_entries-Leaves mark recurse prefix in_git base es next m r v.1 path after outside g
      ∙ diff_blob-Leaves (join_path prefix n) mark d z t o (get n base) result m path next
          (λ u. outside (Under-join_path prefix n path v.0 u)) f
  diff_entries-Leaves mark recurse prefix in_git base (symlink n l t ∷ es) result m r v path after
        outside e =
      let (next, f, g) =
        >>=-eq-done (diff_symlink mark (join_path prefix n) l t (get n base) result) _ e in
      diff_entries-Leaves mark recurse prefix in_git base es next m r v.1 path after outside g
      ∙ diff_symlink-Leaves (join_path prefix n) mark l t (get n base) result m path next
          (λ u. outside (Under-join_path prefix n path v.0 u)) f
  diff_entries-Leaves mark recurse prefix in_git base (tree n d t z c ∷ es) result m r v path after
        outside e =
      let child =
        in_git || (bytes_eq n (codes ".git") || tree_contains_git_dir sha256 from_json s d) in
      let (next, f, g) =
        >>=-eq-done
          (diff_tree recurse threshold in_git child (join_path prefix n) d z t c (get n base)
            result)
          _ e in
      diff_entries-Leaves mark recurse prefix in_git base es next m r v.1 path after outside g
      ∙ diff_tree-Leaves (join_path prefix n) recurse threshold in_git child d z t c (get n base)
          result r path next (λ u. outside (Under-join_path prefix n path v.0 u)) f

  pub load_base_entries-AllKeys :
      (base : Option Digest) (entries : List (Bytes × TreeEntry))
      → load_base_entries sha256 from_json s base ≡ done entries
      → AllKeys IsName entries
  unfolding load_base_entries
  load_base_entries-AllKeys none entries e = rw (done_injective e) tt
  load_base_entries-AllKeys (some base) entries e =
      elim (Result-cases (read_tree sha256 from_json s base)) [
        | inl (reason, unread) ↦ let e' = rw unread at e in cc
        | inr (es, reads) ↦
            rw (done_injective (rw reads at e))
              (by_name-AllKeys es [] (read_tree-AllNames sha256 from_json s base es reads) tt)
      ]

  pub diff_recursive-Leaves :
      (fuel : ℕ) → RecurseLeaves (diff_recursive sha256 from_json s threshold fuel)
  unfolding diff_recursive
  diff_recursive-Leaves zero base target prefix in_git result path after outside e = cc
  diff_recursive-Leaves (suc fuel) base target prefix in_git result path after outside e =
      elim (Bool-cases (same_tree sha256 from_json s threshold base target)) [
        | inl same ↦ ap (get path) (done_injective (rw same at e))
        | inr differs ↦
            let mark = mark_deleted_tree sha256 from_json fuel s in
            let (es, f, g) =
              >>=-eq-done (lift (read_tree sha256 from_json s target)) _ (rw differs at e) in
            let (base_entries, h, i) =
              >>=-eq-done (load_base_entries sha256 from_json s base) _ g in
            let (changed, j, k) = >>=-eq-done _ _ i in
            delete_missing-Leaves mark (mark_deleted_tree-Leaves sha256 from_json s fuel) prefix es
              base_entries changed (load_base_entries-AllKeys base base_entries h) path after
              outside k
            ∙ diff_entries-Leaves mark (diff_recursive sha256 from_json s threshold fuel) prefix
                in_git base_entries es result (mark_deleted_tree-Leaves sha256 from_json s fuel)
                (diff_recursive-Leaves fuel)
                (read_tree-AllNames sha256 from_json s target es (lift_ok f)) path changed outside j
      ]
