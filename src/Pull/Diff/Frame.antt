-- ===== src/Pull/Diff/Frame.antt =====
-- Which paths `diff_trees` of src/commands/pull.rs leaves alone: each part of the walk changes the
-- result only below its own path.
use omemfs.Prelude.{
  ℕ, zero, suc, ◌≡◌, refl, sym, ap, ◌∙◌, inl, inr, List, [], ◌∷◌, ◌++◌, All, Option, append_assoc,
  Bool-cases,
}
use omemfs.Prelude.Bytes.{Bytes, bytes_eq, bytes_eq→eq}
use omemfs.Prelude.Errors.{ok, Result-cases}
use omemfs.Prelude.Maps.{get, insert, get-insert}
use omemfs.Object.Digest.{Digest}
use omemfs.Object.Entry.{TreeEntry, blob, tree, symlink, entry_name}
use omemfs.Object.Names.Paths.{
  join_path, split_path, IsName, name_facts, split_path-name, split_path-append,
}
use omemfs.Trees.Store.{Store}
use omemfs.Trees.Read.{read_tree}
use omemfs.Trees.Change.Stored.{Valid, Valid-cons, read_tree_sound}
use omemfs.Trees.Walk.{Walk, done, >>=-eq-done}
use omemfs.Pull.{Diff, DiffEntry, deleted}
use omemfs.Pull.Diff.{Mark, mark_deleted_entries, mark_deleted_tree}

-- The names of a path from the root, none for the root itself.
unfoldable pub parts : Bytes → List Bytes
parts [] = []
parts (c ∷ path) = split_path (c ∷ path)

pub parts-join_path :
    (prefix name : Bytes)
    → IsName name
    → parts (join_path prefix name) ≡ parts prefix ++ (name ∷ [])
unfolding parts join_path
parts-join_path [] [] h = absurd ((name_facts [] h).0 refl)
parts-join_path [] (c ∷ name) h = split_path-name (c ∷ name) (name_facts (c ∷ name) h).1
parts-join_path (c ∷ prefix) name h =
    split_path-append (c ∷ prefix) name
    ∙ ap (λ l. split_path (c ∷ prefix) ++ l) (split_path-name name (name_facts name h).1)

-- A path at or below another one.
abbrev pub Under : Bytes → Bytes → Type 0
Under prefix path = (rest : List Bytes) × (parts path ≡ parts prefix ++ rest)

pub Under-join_path :
    (prefix name path : Bytes)
    → IsName name
    → Under (join_path prefix name) path
    → Under prefix path
Under-join_path prefix name path h (rest, e) = (
  name ∷ rest,
  e
      ∙ ap (λ l. l ++ rest) (parts-join_path prefix name h)
      ∙ append_assoc (parts prefix) (name ∷ []) rest,
)

-- What a walk leaves as it was.
abbrev pub Leaves : Bytes → Diff → Walk Diff → Type 0
Leaves prefix result w =
    (path : Bytes) (after : Diff)
    → ¬ Under prefix path
    → w ≡ done after
    → get path after ≡ get path result

pub get-insert_outside :
    (prefix name path : Bytes) (value : DiffEntry) (result : Diff)
    → IsName name
    → ¬ Under prefix path
    → get path (insert (join_path prefix name) value result) ≡ get path result
get-insert_outside prefix name path value result h outside =
    get-insert path (join_path prefix name) value result
    ∙ (elim (Bool-cases (bytes_eq (join_path prefix name) path)) [
      | inl same ↦
          let e = bytes_eq→eq (join_path prefix name) path same in
          absurd (outside (name ∷ [], ap parts (sym e) ∙ parts-join_path prefix name h))
      | inr differs ↦ rw differs refl
    ])

abbrev pub AllNames : List TreeEntry → Type 0
AllNames entries = All (λ e. IsName (entry_name e)) entries

Valid-AllNames : (entries : List TreeEntry) → Valid entries → AllNames entries
Valid-AllNames [] v = tt
Valid-AllNames (e ∷ es) v = let (a, b) = Valid-cons e es v in (a, Valid-AllNames es b)

abbrev pub MarkLeaves : Mark → Type 0
MarkLeaves mark =
    (hash : Digest) (prefix : Bytes) (result : Diff)
    → Leaves prefix result (mark hash prefix result)

mark_deleted_entries-Leaves :
    (mark : Mark)
    → MarkLeaves mark
    → (prefix : Bytes) (entries : List TreeEntry) (result : Diff) → AllNames entries
    → Leaves prefix result (mark_deleted_entries mark prefix entries result)
unfolding mark_deleted_entries
mark_deleted_entries-Leaves mark m prefix [] result v path after outside e = ap (get path) (inj e)
  where
    inj : {a b : Diff} → done a ≡ done b → b ≡ a
    inj f = cc
mark_deleted_entries-Leaves mark m prefix (tree n d t z c ∷ es) result v path after outside e =
    let (inner, f, g) = >>=-eq-done (mark d (join_path prefix n) result) _ e in
    mark_deleted_entries-Leaves mark m prefix es inner v.1 path after outside g
    ∙ m d (join_path prefix n) result path inner
        (λ u. outside (Under-join_path prefix n path v.0 u)) f
mark_deleted_entries-Leaves mark m prefix (blob n d t z o ∷ es) result v path after outside e =
    mark_deleted_entries-Leaves mark m prefix es (insert (join_path prefix n) deleted result) v.1
      path after outside e
    ∙ get-insert_outside prefix n path deleted result v.0 outside
mark_deleted_entries-Leaves mark m prefix (symlink n l t ∷ es) result v path after outside e =
    mark_deleted_entries-Leaves mark m prefix es (insert (join_path prefix n) deleted result) v.1
      path after outside e
    ∙ get-insert_outside prefix n path deleted result v.0 outside

module _ (sha256 : Bytes → Bytes) (from_json : Bytes → Option (List TreeEntry)) (s : Store) where
  pub read_tree-AllNames :
      (hash : Digest) (entries : List TreeEntry)
      → read_tree sha256 from_json s hash ≡ ok entries
      → AllNames entries
  read_tree-AllNames hash entries e =
      let (b, _, _, _, v) = read_tree_sound sha256 from_json s hash entries e in
      Valid-AllNames entries v

  pub mark_deleted_tree-Leaves : (fuel : ℕ) → MarkLeaves (mark_deleted_tree sha256 from_json fuel s)
  unfolding mark_deleted_tree
  mark_deleted_tree-Leaves zero hash prefix result path after outside e = cc
  mark_deleted_tree-Leaves (suc fuel) hash prefix result path after outside e =
      elim (Result-cases (read_tree sha256 from_json s hash)) [
        | inl (reason, unread) ↦ let e' = rw unread at e in cc
        | inr (entries, reads) ↦
            mark_deleted_entries-Leaves (mark_deleted_tree sha256 from_json fuel s)
              (mark_deleted_tree-Leaves fuel) prefix entries result
              (read_tree-AllNames hash entries reads) path after outside (rw reads at e)
      ]
