-- ===== src/Trees/Change/Stored.antt =====
-- A store in which every object lies under the hash of its bytes, and what building a tree does to it.
use omemfs.Prelude.{
  ◌≡◌, refl, sym, ap, ◌∙◌, true, List, [], ◌∷◌, ◌++◌, Option, none, some, if◌then◌else◌, drop,
  arith, Bool-cases, Option-cases, inl, inr,
}
use mathlib.Core.Option.{some-injective}
use omemfs.Prelude.Bytes.{
  Bytes, bytes_eq_iff, bytes_eq_refl, bytes_lt, starts_with, starts_with-append,
}
use omemfs.Prelude.Errors.{ok, >>=-eq-ok}
use omemfs.Object.Digest.{Digest, digest_eq, compute, from_bytes}
use omemfs.Object.Tags.{type_tag_tree}
use omemfs.Object.Names.{validate_entry_name}
use omemfs.Object.Entry.{TreeEntry, entry_name, insert_entry, sort_onto, sorted_entries}
use omemfs.Object.Entry.Sorting.{has_name}
use omemfs.Trees.Store.{Store, exists, store_read, store_write}
use omemfs.Trees.Read.{validate_names, parse_json, deserialise_tree, read_tree}
use omemfs.Trees.Change.{set_entry, serialise_tree, build_and_store}

pub digest_eq_iff : (a b : Digest) → (digest_eq a b ≡ true → a ≡ b) × (digest_eq a a ≡ true)
unfolding digest_eq
digest_eq_iff a b = (
  λ h. ground (arith, bytes_eq_iff a.hex b.hex, bytes_eq_iff a.bytes b.bytes),
  ground (arith, bytes_eq_refl a.hex, bytes_eq_refl a.bytes),
)

-- Everything that the first store holds the second holds too.
abbrev pub Keeps : Store → Store → Type 0
Keeps s t = (h : Digest) (b : Bytes) → s h ≡ some b → t h ≡ some b

pub store_write-Keeps : (h : Digest) (bytes : Bytes) (s : Store) → Keeps s (store_write h bytes s)
unfolding store_write exists
store_write-Keeps h bytes s k b e = elim (Bool-cases (digest_eq h k)) [
  | inl same ↦ let p = (digest_eq_iff h k).0 same in ground (arith, ap s p)
  | inr other ↦ ground arith
]

store_write_at :
    (h : Digest) (bytes : Bytes) (s : Store) → s h ≡ none → store_write h bytes s h ≡ some bytes
unfolding store_write exists
store_write_at h bytes s e = ground (arith, (digest_eq_iff h h).1)

-- Names that pass the check, for each entry of a list.
abbrev pub Valid : List TreeEntry → Type 0
Valid es = validate_names es ≡ ok tt

pub Valid-cons :
    (e : TreeEntry) (es : List TreeEntry)
    → Valid (e ∷ es)
    → (validate_entry_name (entry_name e) ≡ ok tt) × Valid es
unfolding validate_names
Valid-cons e es h = let (u, a, b) = >>=-eq-ok (validate_entry_name (entry_name e)) _ h in (a, b)

cons_Valid :
    (e : TreeEntry) (es : List TreeEntry)
    → validate_entry_name (entry_name e) ≡ ok tt
    → Valid es
    → Valid (e ∷ es)
unfolding validate_names
cons_Valid e es h k = rw h k

pub set_entry-Valid :
    (name : Bytes) (e : TreeEntry) (es : List TreeEntry)
    → validate_entry_name (entry_name e) ≡ ok tt
    → Valid es
    → Valid (set_entry name e es)
unfolding set_entry
set_entry-Valid name e [] h k = cons_Valid e [] h k
set_entry-Valid name e (f ∷ fs) h k =
    let (a, b) = Valid-cons f fs k in
    elim (Bool-cases (has_name name f)) [
      | inl same ↦ rw same (cons_Valid e fs h b)
      | inr other ↦ rw other (cons_Valid f (set_entry name e fs) a (set_entry-Valid name e fs h b))
    ]

insert-Valid :
    (e : TreeEntry) (es : List TreeEntry)
    → validate_entry_name (entry_name e) ≡ ok tt
    → Valid es
    → Valid (insert_entry e es)
unfolding insert_entry
insert-Valid e [] h k = cons_Valid e [] h k
insert-Valid e (f ∷ fs) h k =
    let (a, b) = Valid-cons f fs k in
    elim (Bool-cases (bytes_lt (entry_name e) (entry_name f))) [
      | inl lt ↦ rw lt (cons_Valid e (f ∷ fs) h k)
      | inr ge ↦ rw ge (cons_Valid f (insert_entry e fs) a (insert-Valid e fs h b))
    ]

sort_onto-Valid :
    (es sorted : List TreeEntry) → Valid es → Valid sorted → Valid (sort_onto es sorted)
unfolding sort_onto
sort_onto-Valid [] sorted h k = k
sort_onto-Valid (e ∷ es) sorted h k =
    let (a, b) = Valid-cons e es h in
    sort_onto-Valid es (insert_entry e sorted) b (insert-Valid e sorted a k)

sorted_entries-Valid : (es : List TreeEntry) → Valid es → Valid (sorted_entries es)
unfolding sorted_entries
sorted_entries-Valid es h = sort_onto-Valid es [] h (unfold validate_names in refl)

module _ (sha256 : Bytes → Bytes) where
  -- Every object lies under the hash of its bytes.
  abbrev pub IsAddressed : Store → Type 0
  IsAddressed s = (h : Digest) (b : Bytes) → s h ≡ some b → compute sha256 b ≡ h

  pub store_write-IsAddressed :
      (bytes : Bytes) (s : Store)
      → IsAddressed s
      → IsAddressed (store_write (compute sha256 bytes) bytes s)
  unfolding store_write
  store_write-IsAddressed bytes s a k b e = elim (Bool-cases (exists s (compute sha256 bytes))) [
    | inl old ↦ a k b (rw old at e)
    | inr new ↦ elim (Bool-cases (digest_eq (compute sha256 bytes) k)) [
      | inr other ↦ a k b (rw (new, other) at e)
      | inl same ↦
          let p = (digest_eq_iff (compute sha256 bytes) k).0 same in
          let q : bytes ≡ b = some-injective _ _ (rw (new, same) at e) in
          ap (compute sha256) (sym q) ∙ p
    ]
  ]

-- What the model assumes of SHA-256 and of serde: no two of the byte strings in play collide, and a
-- list of entries reads back from its JSON.
pub record IsFaithful (sha256 : Bytes → Bytes) (to_json : List TreeEntry → Bytes)
    (from_json : Bytes → Option (List TreeEntry)) : Type 0 where
  pub injective : (a b : Bytes) → sha256 a ≡ sha256 b → a ≡ b
  pub parses : (es : List TreeEntry) → from_json (to_json es) ≡ some es

deserialise_tree-Valid :
    (from_json : Bytes → Option (List TreeEntry)) (b : Bytes) (es : List TreeEntry)
    → deserialise_tree from_json b ≡ ok es
    → Valid es
unfolding deserialise_tree
deserialise_tree-Valid from_json b es parsed =
    let (es', _, k) =
      >>=-eq-ok (parse_json from_json (if starts_with b type_tag_tree then drop 2 b else b)) _
        parsed in
    let (u, valid, same) = >>=-eq-ok (validate_names es') _ k in ground arith

module _ (sha256 : Bytes → Bytes) (from_json : Bytes → Option (List TreeEntry)) where
  read_tree_at :
      (s : Store) (h : Digest) (b : Bytes)
      → s h ≡ some b
      → digest_eq (compute sha256 b) h ≡ true
      → read_tree sha256 from_json s h ≡ deserialise_tree from_json b
  unfolding read_tree store_read
  read_tree_at s h b e k = ground arith

  -- A tree is returned only where the store has bytes that hash to the hash asked for and that
  -- parse to its entries, and only with entry names that pass the check.
  pub read_tree_sound :
      (s : Store) (h : Digest) (es : List TreeEntry)
      → read_tree sha256 from_json s h ≡ ok es
      → (b : Bytes) × (s h ≡ some b)
        × (compute sha256 b ≡ h)
        × (deserialise_tree from_json b ≡ ok es)
        × Valid es
  unfolding read_tree store_read deserialise_tree
  read_tree_sound s h es e = elim (Option-cases (s h)) [
    | inl e' ↦ ground arith
    | inr (b, e') ↦ elim (Bool-cases (digest_eq (compute sha256 b) h)) [
      | inr bad ↦ ground arith
      | inl good ↦
          let parsed : deserialise_tree from_json b ≡ ok es =
            sym (read_tree_at s h b e' good) ∙ e in
          (
            b,
            e',
            (digest_eq_iff (compute sha256 b) h).0 good,
            parsed,
            deserialise_tree-Valid from_json b es parsed,
          )
    ]
  ]

  pub read_tree-Keeps :
      (s t : Store) (h : Digest) (es : List TreeEntry)
      → Keeps s t
      → read_tree sha256 from_json s h ≡ ok es
      → read_tree sha256 from_json t h ≡ ok es
  read_tree-Keeps s t h es k e =
      let (b, at_s, same, parsed, _) = read_tree_sound s h es e in
      let eq : digest_eq (compute sha256 b) h ≡ true = rw same ((digest_eq_iff h h).1) in
      read_tree_at t h b (k h b at_s) eq ∙ parsed

module _ {sha256 : Bytes → Bytes} {to_json : List TreeEntry → Bytes}
    {from_json : Bytes → Option (List TreeEntry)}
    (faithful : IsFaithful sha256 to_json from_json) where
  compute_injective : (a b : Bytes) → compute sha256 a ≡ compute sha256 b → a ≡ b
  unfolding compute from_bytes
  compute_injective a b e = faithful.injective a b (ap (λ (d : Digest). d.bytes) e)

  deserialise_built :
      (es : List TreeEntry)
      → Valid es
      → deserialise_tree from_json (type_tag_tree ++ to_json es) ≡ ok es
  unfolding deserialise_tree
  deserialise_built es v =
      rw (starts_with-append type_tag_tree (to_json es), parse_json, faithful.parses es, v)

  stored_at :
      (bytes : Bytes) (s : Store)
      → IsAddressed sha256 s
      → store_write (compute sha256 bytes) bytes s (compute sha256 bytes) ≡ some bytes
  stored_at bytes s a = elim (Option-cases (s (compute sha256 bytes))) [
    | inl e ↦ store_write_at (compute sha256 bytes) bytes s e
    | inr (b, e) ↦
        let same = compute_injective b bytes (a (compute sha256 bytes) b e) in
        store_write-Keeps (compute sha256 bytes) bytes s _ bytes (e ∙ ap some same)
  ]

  -- Under the same assumptions on the store, the hash and the JSON, storing a list of entries with
  -- valid names gives a hash from which exactly its sorted entries read back; every object of the
  -- store is kept and every object lies under its hash.
  pub read_tree-build_and_store :
      (es : List TreeEntry) (s : Store)
      → IsAddressed sha256 s
      → Valid es
      → (h : Digest) × (t : Store) × (build_and_store sha256 to_json from_json es s ≡ (ok h, t))
        × (read_tree sha256 from_json t h ≡ ok (sorted_entries es))
        × IsAddressed sha256 t
        × Keeps s t
  unfolding build_and_store serialise_tree
  read_tree-build_and_store es s a v =
      let bytes = type_tag_tree ++ to_json (sorted_entries es) in
      let h = compute sha256 bytes in
      let t = store_write h bytes s in
      let stored : t h ≡ some bytes = stored_at bytes s a in
      let same = (digest_eq_iff h h).1 in
      (
        h,
        t,
        refl,
        read_tree_at sha256 from_json t h bytes stored same
            ∙ deserialise_built (sorted_entries es) (sorted_entries-Valid es v),
        store_write-IsAddressed sha256 bytes s a,
        store_write-Keeps h bytes s,
      )
