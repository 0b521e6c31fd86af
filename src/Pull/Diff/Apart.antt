-- ===== src/Pull/Diff/Apart.antt =====
-- Paths below different names are apart, so `diff_recursive` of src/commands/pull.rs changes them
-- apart.
use omemfs.Prelude.{
  ◌≡◌, ◌≢◌, refl, sym, ap, ◌∙◌, inl, inr, true, false, List, [], ◌∷◌, ◌++◌, All, some, any,
  append_assoc, Bool-cases,
}
use omemfs.Prelude.Bytes.{Bytes, bytes_eq, bytes_eq→eq}
use omemfs.Prelude.Maps.{get, insert, AllKeys}
use omemfs.Object.Entry.{TreeEntry, blob, tree, symlink, entry_name}
use omemfs.Object.Entry.Sorting.{find_name}
use omemfs.Object.Names.Paths.{join_path, path_of, IsName}
use omemfs.Trees.Walk.{done, >>=-eq-done}
use omemfs.Pull.{Diff, deleted}
use omemfs.Pull.Diff.{Mark, extend, delete_missing}
use omemfs.Pull.Diff.Frame.{parts, parts-join_path, Under, MarkLeaves}
use omemfs.Pull.Diff.Arms.{get-insert_at, get-extend, done_injective}

-- Paths below different names of one directory are apart.
pub parts-path_of :
    (prefix name : Bytes) (names : List Bytes)
    → All IsName (name ∷ names)
    → parts (path_of prefix (name ∷ names)) ≡ parts prefix ++ (name ∷ names)
unfolding path_of
parts-path_of prefix name [] v = parts-join_path prefix name v.0
parts-path_of prefix name (next ∷ names) v =
    parts-path_of (join_path prefix name) next names v.1
    ∙ ap (λ l. l ++ (next ∷ names)) (parts-join_path prefix name v.0)
    ∙ append_assoc (parts prefix) (name ∷ []) (next ∷ names)

heads_equal :
    (front : List Bytes) (a b : Bytes) (as' bs : List Bytes)
    → front ++ (a ∷ as') ≡ front ++ (b ∷ bs)
    → a ≡ b
heads_equal [] a b as' bs h = cc
heads_equal (f ∷ front) a b as' bs h = heads_equal front a b as' bs cc

pub apart :
    (prefix name other : Bytes) (names : List Bytes)
    → All IsName (name ∷ names)
    → IsName other
    → other ≢ name
    → ¬ Under (join_path prefix other) (path_of prefix (name ∷ names))
apart prefix name other names v o differs (rest, e) = differs (
    heads_equal (parts prefix) other name rest names (
      sym (
        sym (parts-path_of prefix name names v)
        ∙ e
        ∙ ap (λ l. l ++ rest) (parts-join_path prefix other o)
        ∙ append_assoc (parts prefix) (other ∷ []) rest)))

not_named :
    (key name : Bytes) (targets : List TreeEntry)
    → any (λ f. bytes_eq (entry_name f) key) targets ≡ false
    → any (λ f. bytes_eq (entry_name f) name) targets ≡ true
    → key ≢ name
not_named key name targets gone there k =
    let t = ap (λ x. any (λ f. bytes_eq (entry_name f) x) targets) k ∙ there in cc

-- The names that the target lacks are not the blob's.
pub delete_missing-at :
    (mark : Mark) (prefix name path : Bytes) (targets : List TreeEntry)
    (base : List (Bytes × TreeEntry)) (result after : Diff)
    → MarkLeaves mark
    → any (λ f. bytes_eq (entry_name f) name) targets ≡ true
    → AllKeys IsName base
    → ((other : Bytes) → IsName other → other ≢ name → ¬ Under (join_path prefix other) path)
    → delete_missing mark prefix targets base result ≡ done after
    → get path after ≡ get path result
unfolding delete_missing get
delete_missing-at mark prefix name path targets [] result after m there v far e =
    ap (get path) (done_injective e)
delete_missing-at mark prefix name path targets ((key, tree n d t z c) ∷ base) result after m there
      v far e =
    elim (Bool-cases (any (λ f. bytes_eq (entry_name f) key) targets)) [
      | inl present ↦
          delete_missing-at mark prefix name path targets base result after m there v.1 far
            (rw present at e)
      | inr gone ↦
          let outside = far key v.0 (not_named key name targets gone there) in
          let (sub, f, g) = >>=-eq-done (mark d (join_path prefix key) []) _ (rw gone at e) in
          delete_missing-at mark prefix name path targets base (extend result sub) after m there v.1
            far g
          ∙ get-extend path sub result (m d (join_path prefix key) [] path sub outside f)
    ]
delete_missing-at mark prefix name path targets ((key, blob n d t z o) ∷ base) result after m there
      v far e =
    elim (Bool-cases (any (λ f. bytes_eq (entry_name f) key) targets)) [
      | inl present ↦
          delete_missing-at mark prefix name path targets base result after m there v.1 far
            (rw present at e)
      | inr gone ↦
          let outside = far key v.0 (not_named key name targets gone there) in
          delete_missing-at mark prefix name path targets base
            (insert (join_path prefix key) deleted result) after m there v.1 far (rw gone at e)
          ∙ get-insert_at (join_path prefix key) path deleted result outside
    ]
delete_missing-at mark prefix name path targets ((key, symlink n l t) ∷ base) result after m there v
      far e =
    elim (Bool-cases (any (λ f. bytes_eq (entry_name f) key) targets)) [
      | inl present ↦
          delete_missing-at mark prefix name path targets base result after m there v.1 far
            (rw present at e)
      | inr gone ↦
          let outside = far key v.0 (not_named key name targets gone there) in
          delete_missing-at mark prefix name path targets base
            (insert (join_path prefix key) deleted result) after m there v.1 far (rw gone at e)
          ∙ get-insert_at (join_path prefix key) path deleted result outside
    ]

-- The entry of that name in the list, and the path strictly below it.
pub find_name-named :
    (name : Bytes) (es : List TreeEntry) (e : TreeEntry)
    → find_name name es ≡ some e
    → any (λ f. bytes_eq (entry_name f) name) es ≡ true
unfolding find_name
find_name-named name [] e h = cc
find_name-named name (f ∷ es) e h = elim (Bool-cases (bytes_eq (entry_name f) name)) [
  | inl same ↦ rw same refl
  | inr differs ↦ rw differs (find_name-named name es e (rw differs at h))
]

pub not_itself :
    (prefix name next : Bytes) (names : List Bytes)
    → All IsName (name ∷ (next ∷ names))
    → bytes_eq (join_path prefix name) (path_of prefix (name ∷ (next ∷ names))) ≡ false
not_itself prefix name next names v =
    let at = join_path prefix name in
    let path = path_of prefix (name ∷ (next ∷ names)) in
    elim (Bool-cases (bytes_eq at path)) [
      | inr differs ↦ differs
      | inl same ↦ absurd (
          longer (parts prefix) name next names (
            sym (parts-join_path prefix name v.0)
            ∙ ap parts (bytes_eq→eq at path same)
            ∙ parts-path_of prefix name (next ∷ names) v))
    ]
  where
    longer :
        (front : List Bytes) (a b : Bytes) (rest : List Bytes)
        → front ++ (a ∷ []) ≡ front ++ (a ∷ (b ∷ rest))
        → ⊥
    longer [] a b rest h = cc
    longer (f ∷ front) a b rest h = longer front a b rest cc
