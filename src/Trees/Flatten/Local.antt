-- ===== src/Trees/Flatten/Local.antt =====
-- The flatten functions of src/tree_ops.rs: the one for a partial store against the full one, and fuel.
use omemfs.Prelude.{
  ℕ, zero, suc, ◌≡◌, refl, inl, inr, true, List, [], ◌∷◌, Option, Option-cases, arith,
}
use omemfs.Prelude.Bytes.{Bytes}
use omemfs.Prelude.Errors.{ok, Result-cases}
use omemfs.Prelude.Maps.{insert}
use omemfs.Object.Digest.{Digest}
use omemfs.Object.Entry.{TreeEntry, blob, tree, symlink}
use omemfs.Object.Names.Paths.{join_path}
use omemfs.Trees.Store.{Store, exists, store_read}
use omemfs.Trees.Read.{read_tree}
use omemfs.Trees.Walk.{done, >>=-eq-done}
use omemfs.Trees.Flatten.{
  Flat, Below, flatten_entries, if_present, flatten_into, flatten_local_into, flatten_tree_entries,
  flatten_tree_entries_local,
}

-- Whatever one walk finds the other one finds too.
abbrev Follows : Below → Below → Type 0
Follows local full =
    (hash : Digest) (path : Bytes) (out result : Flat)
    → full hash path out ≡ done result
    → local hash path out ≡ done result

flatten_entries-Follows :
    (local full : Below)
    → Follows local full
    → (prefix : Bytes) (entries : List TreeEntry) (out result : Flat)
    → flatten_entries full prefix entries out ≡ done result
    → flatten_entries local prefix entries out ≡ done result
unfolding flatten_entries
flatten_entries-Follows local full h prefix [] out result e = e
flatten_entries-Follows local full h prefix (tree n d m s c ∷ es) out result e =
    let (inner, f, g) = >>=-eq-done (full d (join_path prefix n) out) _ e in
    rw (h d (join_path prefix n) out inner f)
      (flatten_entries-Follows local full h prefix es inner result g)
flatten_entries-Follows local full h prefix (blob n d m s o ∷ es) out result e =
    flatten_entries-Follows local full h prefix es
      (insert (join_path prefix n) (blob n d m s o) out) result e
flatten_entries-Follows local full h prefix (symlink n t m ∷ es) out result e =
    flatten_entries-Follows local full h prefix es (insert (join_path prefix n) (symlink n t m) out)
      result e

module _ (sha256 : Bytes → Bytes) (from_json : Bytes → Option (List TreeEntry)) (s : Store) where
  -- A tree that can be read is in the store.
  read_tree-exists :
      (hash : Digest) (entries : List TreeEntry)
      → read_tree sha256 from_json s hash ≡ ok entries
      → exists s hash ≡ true
  unfolding read_tree store_read exists
  read_tree-exists hash entries e = elim (Option-cases (s hash)) [
    | inl gone ↦ ground arith
    | inr (bytes, there) ↦ rw (exists, there) refl
  ]

  flatten_into-exists :
      (fuel : ℕ) (hash : Digest) (path : Bytes) (out result : Flat)
      → flatten_into sha256 from_json fuel s hash path out ≡ done result
      → exists s hash ≡ true
  unfolding flatten_into
  flatten_into-exists zero hash path out result e = cc
  flatten_into-exists (suc fuel) hash path out result e =
      elim (Result-cases (read_tree sha256 from_json s hash)) [
        | inl (reason, unread) ↦ let e' = rw unread at e in cc
        | inr (entries, reads) ↦ read_tree-exists hash entries reads
      ]

  flatten_local_into-Follows :
      (fuel : ℕ)
      → Follows (flatten_local_into sha256 from_json fuel s) (flatten_into sha256 from_json fuel s)
  unfolding flatten_local_into flatten_into if_present
  flatten_local_into-Follows zero hash path out result e = cc
  flatten_local_into-Follows (suc fuel) hash path out result e =
      elim (Result-cases (read_tree sha256 from_json s hash)) [
        | inl (reason, unread) ↦ let e' = rw unread at e in cc
        | inr (entries, reads) ↦ rw reads (
            flatten_entries-Follows (if_present s (flatten_local_into sha256 from_json fuel s))
              (flatten_into sha256 from_json fuel s)
              (λ d p o r f.
                rw (if_present, flatten_into-exists fuel d p o r f)
                  (flatten_local_into-Follows fuel d p o r f))
              path entries out result (rw reads at e))
      ]

  -- Where the full flatten of a tree succeeds, the one that stops at trees absent from the store
  -- gives the same map.
  pub flatten_tree_entries_local-full :
      (fuel : ℕ) (root : Digest) (flat : Flat)
      → flatten_tree_entries sha256 from_json fuel s root ≡ done flat
      → flatten_tree_entries_local sha256 from_json fuel s root ≡ done flat
  unfolding flatten_tree_entries flatten_tree_entries_local
  flatten_tree_entries_local-full fuel root flat e =
      flatten_local_into-Follows fuel root [] [] flat e
