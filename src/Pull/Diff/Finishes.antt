-- ===== src/Pull/Diff/Finishes.antt =====
-- Enough fuel for `diff_trees` of src/commands/pull.rs: more than the trees are deep.
use omemfs.Prelude.{
  ℕ, zero, suc, ◌≡◌, refl, ◌⊎◌, inl, inr, Bool, false, not, ◌&&◌, ◌||◌, List, [], ◌∷◌, All, Option,
  none, some, Option-cases, ltb, leb,
}
use omemfs.Prelude.Bytes.{Bytes, codes, bytes_eq}
use omemfs.Prelude.Errors.{Error, Result-cases}
use omemfs.Prelude.Maps.{get, insert, AllValues, AllValues-get}
use omemfs.Object.Digest.{Digest}
use omemfs.Object.Entry.{TreeEntry, blob, tree, symlink}
use omemfs.Object.Names.Paths.{join_path}
use omemfs.Trees.Store.{Store}
use omemfs.Trees.Read.{read_tree, tree_contains_git_dir}
use omemfs.Trees.Walk.{failed, done, Finishes, EachChild, IsDeep}
use omemfs.Pull.{Diff, added_tree}
use omemfs.Pull.Diff.{
  Recurse, is_none, mark_deleted_tree, by_name, diff_blob, diff_symlink, diff_tree, base_tree,
  delete_replaced, load_base_entries, diff_entries, same_tree, diff_recursive, diff_trees,
}
use omemfs.Pull.Diff.Ends.{
  Finishes-bind, if_Finishes, MarkFinishes, mark_deleted_entries-Finishes, by_name-AllValues,
  delete_missing-Finishes, OldFinishes, diff_blob-Finishes, diff_symlink-Finishes, All-EachChild,
  AllValues-EachChild,
}

module _ (sha256 : Bytes → Bytes) (from_json : Bytes → Option (List TreeEntry)) (s : Store) where
  -- The base, where there is one, is no deeper than the fuel.
  abbrev BaseIsDeep : ℕ → Option Digest → Type 0
  BaseIsDeep fuel none = Unit
  BaseIsDeep fuel (some base) = IsDeep sha256 from_json fuel s base

  mark_deleted_tree-Finishes :
      (fuel : ℕ) (hash : Digest)
      → IsDeep sha256 from_json fuel s hash
      → MarkFinishes (mark_deleted_tree sha256 from_json fuel s) hash
  unfolding mark_deleted_tree IsDeep
  mark_deleted_tree-Finishes zero hash deep path result = absurd deep
  mark_deleted_tree-Finishes (suc fuel) hash deep path result =
      elim (Result-cases (read_tree sha256 from_json s hash)) [
        | inl (reason, unread) ↦ rw unread tt
        | inr (entries, reads) ↦ rw reads (
            mark_deleted_entries-Finishes (mark_deleted_tree sha256 from_json fuel s) path entries
              result
              (All-EachChild (IsDeep sha256 from_json fuel s)
                (MarkFinishes (mark_deleted_tree sha256 from_json fuel s)) entries
                (mark_deleted_tree-Finishes fuel) (deep entries reads)))
      ]

  -- The recursive call finishes from a pair of trees.
  abbrev Recurses : ℕ → Recurse → Type 0
  Recurses fuel recurse =
      (base : Option Digest) (target : Digest) (path : Bytes) (in_git : Bool) (result : Diff)
      → BaseIsDeep fuel base
      → IsDeep sha256 from_json fuel s target
      → Finishes (recurse base target path in_git result)

  diff_tree-Finishes :
      (fuel threshold : ℕ) (recurse : Recurse) (in_git child_in_git : Bool) (path : Bytes)
      (hash : Digest) (size : ℕ) (mtime : Option ℕ) (blob_count : ℕ) (old : Option TreeEntry)
      (result : Diff)
      → Recurses fuel recurse
      → BaseIsDeep fuel (base_tree old)
      → IsDeep sha256 from_json fuel s hash
      → Finishes (
          diff_tree recurse threshold in_git child_in_git path hash size mtime blob_count old
            result)
  unfolding diff_tree
  diff_tree-Finishes fuel threshold recurse in_git child_in_git path hash size mtime blob_count old
        result r b t =
      let replaced = delete_replaced path old result in
      if_Finishes (is_none (base_tree old) && ltb 0 threshold && leb threshold size && not in_git)
        (done (insert path (added_tree hash size mtime blob_count) replaced)) _ tt
        (Finishes-bind (recurse (base_tree old) hash path child_in_git replaced) _
          (r (base_tree old) hash path child_in_git replaced b t) (λ inner. tt))

  get-OldFinishes :
      (fuel : ℕ) (name : Bytes) (base : List (Bytes × TreeEntry))
      → AllValues (EachChild (IsDeep sha256 from_json fuel s)) base
      → OldFinishes (mark_deleted_tree sha256 from_json fuel s) (get name base)
        × BaseIsDeep fuel (base_tree (get name base))
  unfolding base_tree
  get-OldFinishes fuel name base h = elim (Option-cases (get name base)) [
    | inl gone ↦ rw gone (tt, tt)
    | inr (blob n d m z o, there) ↦ rw there (tt, tt)
    | inr (symlink n t m, there) ↦ rw there (tt, tt)
    | inr (tree n d m z c, there) ↦
        let deep =
          AllValues-get (EachChild (IsDeep sha256 from_json fuel s)) name base (tree n d m z c) h
            there in
        rw there (mark_deleted_tree-Finishes fuel d deep, deep)
  ]

  diff_entries-Finishes :
      (fuel threshold : ℕ) (recurse : Recurse) (prefix : Bytes) (in_git : Bool)
      (base : List (Bytes × TreeEntry)) (entries : List TreeEntry) (result : Diff)
      → Recurses fuel recurse
      → AllValues (EachChild (IsDeep sha256 from_json fuel s)) base
      → All (EachChild (IsDeep sha256 from_json fuel s)) entries
      → Finishes (
          diff_entries sha256 from_json s threshold
            (mark_deleted_tree sha256 from_json fuel s)
            recurse
            prefix
            in_git
            base
            entries
            result)
  unfolding diff_entries
  diff_entries-Finishes fuel threshold recurse prefix in_git base [] result r b t = tt
  diff_entries-Finishes fuel threshold recurse prefix in_git base (blob n d m z o ∷ es) result r b
        t =
      Finishes-bind
        (diff_blob (mark_deleted_tree sha256 from_json fuel s) (join_path prefix n) d z m o
          (get n base) result)
        _
        (diff_blob-Finishes (mark_deleted_tree sha256 from_json fuel s) (join_path prefix n) d z m o
          (get n base) result (get-OldFinishes fuel n base b).0)
        (λ next. diff_entries-Finishes fuel threshold recurse prefix in_git base es next r b t.1)
  diff_entries-Finishes fuel threshold recurse prefix in_git base (symlink n l m ∷ es) result r b
        t =
      Finishes-bind
        (diff_symlink (mark_deleted_tree sha256 from_json fuel s) (join_path prefix n) l m
          (get n base) result)
        _
        (diff_symlink-Finishes (mark_deleted_tree sha256 from_json fuel s) (join_path prefix n) l m
          (get n base) result (get-OldFinishes fuel n base b).0)
        (λ next. diff_entries-Finishes fuel threshold recurse prefix in_git base es next r b t.1)
  diff_entries-Finishes fuel threshold recurse prefix in_git base (tree n d m z c ∷ es) result r b
        t =
      Finishes-bind
        (diff_tree recurse threshold in_git
          (in_git || (bytes_eq n (codes ".git") || tree_contains_git_dir sha256 from_json s d))
          (join_path prefix n) d z m c (get n base) result)
        _
        (diff_tree-Finishes fuel threshold recurse in_git
          (in_git || (bytes_eq n (codes ".git") || tree_contains_git_dir sha256 from_json s d))
          (join_path prefix n) d z m c (get n base) result r (get-OldFinishes fuel n base b).1 t.0)
        (λ next. diff_entries-Finishes fuel threshold recurse prefix in_git base es next r b t.1)

  -- What the base holds is no deeper than the base.
  load_base_entries-cases :
      (fuel : ℕ) (base : Option Digest)
      → BaseIsDeep (suc fuel) base
      → ((e : Error) × (load_base_entries sha256 from_json s base ≡ failed e))
        ⊎ ((entries : List (Bytes × TreeEntry)) × (load_base_entries sha256 from_json s base
              ≡ done entries)
            × AllValues (EachChild (IsDeep sha256 from_json fuel s)) entries)
  unfolding load_base_entries IsDeep
  load_base_entries-cases fuel none deep = inr ([], refl, tt)
  load_base_entries-cases fuel (some base) deep =
      elim (Result-cases (read_tree sha256 from_json s base)) [
        | inl (e, unread) ↦ inl (e, rw unread refl)
        | inr (entries, reads) ↦ inr (
          by_name entries [],
          rw reads refl,
          by_name-AllValues (EachChild (IsDeep sha256 from_json fuel s)) entries []
              (deep entries reads) tt,
        )
      ]

  diff_recursive-Finishes :
      (threshold fuel : ℕ) → Recurses fuel (diff_recursive sha256 from_json s threshold fuel)
  unfolding diff_recursive IsDeep
  diff_recursive-Finishes threshold zero base target path in_git result b t = absurd t
  diff_recursive-Finishes threshold (suc fuel) base target path in_git result b t =
      if_Finishes (same_tree sha256 from_json s threshold base target) (done result) _ tt
        (elim (Result-cases (read_tree sha256 from_json s target)) [
          | inl (e, unread) ↦ rw unread tt
          | inr (entries, reads) ↦ elim (load_base_entries-cases fuel base b) [
            | inl (e, unread) ↦ rw (reads, unread) tt
            | inr (base_entries, base_reads, base_deep) ↦
                rw (reads, base_reads)
                  (Finishes-bind
                    (diff_entries sha256 from_json s threshold
                      (mark_deleted_tree sha256 from_json fuel s)
                      (diff_recursive sha256 from_json s threshold fuel) path in_git base_entries
                      entries result)
                    _
                    (diff_entries-Finishes fuel threshold
                      (diff_recursive sha256 from_json s threshold fuel) path in_git base_entries
                      entries result (diff_recursive-Finishes threshold fuel) base_deep
                      (t entries reads))
                    (λ changed.
                      delete_missing-Finishes (mark_deleted_tree sha256 from_json fuel s) path
                        entries base_entries changed
                        (AllValues-EachChild (IsDeep sha256 from_json fuel s)
                          (MarkFinishes (mark_deleted_tree sha256 from_json fuel s)) base_entries
                          (mark_deleted_tree-Finishes fuel) base_deep)))
          ]
        ])

  -- With fuel that covers the depth of the base and of the target, where they are there, the diff
  -- does not run out of it: it gives a result or the error of a read.
  pub diff_trees-Finishes :
      (threshold fuel : ℕ) (base target : Option Digest)
      → BaseIsDeep fuel base
      → BaseIsDeep fuel target
      → Finishes (diff_trees sha256 from_json s threshold fuel base target)
  unfolding diff_trees
  diff_trees-Finishes threshold fuel base (some target) b t =
      diff_recursive-Finishes threshold fuel base target [] false [] b t
  diff_trees-Finishes threshold fuel (some base) none b t =
      mark_deleted_tree-Finishes fuel base b [] []
  diff_trees-Finishes threshold fuel none none b t = tt
