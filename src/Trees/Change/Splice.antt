-- ===== src/Trees/Change/Splice.antt =====
-- `splice_entry` of src/tree_ops.rs, and navigation in the tree it builds.
use omemfs.Prelude.{◌≡◌, refl, true, List, [], ◌∷◌, Option, none, some, if◌then◌else◌, arith}
use omemfs.Prelude.Bytes.{Bytes, bytes_eq_iff}
use omemfs.Prelude.Errors.{Result, ok, >>=-eq-ok}
use omemfs.Object.Digest.{Digest}
use omemfs.Object.Names.{validate_entry_name}
use omemfs.Object.Entry.{
  TreeEntry, tree, entry_name, entry_hash, sorted_entries, aggregate_mtime, aggregate_size,
  aggregate_blob_count,
}
use omemfs.Object.Entry.Sorting.{has_name, find_name}
use omemfs.Object.Entry.Stable.{find_name-sorted_entries}
use omemfs.Trees.Store.{Store}
use omemfs.Trees.Read.{
  read_tree, tree_meta, find_entry_in_tree, navigate_entry, validate_names, hash_of, at_hash,
}
use omemfs.Trees.Change.{
  set_entry, build_and_store, load, load_base, dir_entry, child_of, splice_entry,
}
use omemfs.Trees.Change.Stored.{
  Keeps, Valid, IsAddressed, IsFaithful, set_entry-Valid, read_tree_sound, read_tree-Keeps,
  read_tree-build_and_store,
}

find-set_entry :
    (n name : Bytes) (e : TreeEntry) (es : List TreeEntry)
    → entry_name e ≡ name
    → find_name n (set_entry name e es) ≡ (if has_name n e then some e else find_name n es)
unfolding find_name set_entry
find-set_entry n name e [] k = refl
find-set_entry n name e (f ∷ fs) k = ground (
  arith,
  find-set_entry n name e fs k,
  bytes_eq_iff (entry_name e) n,
  bytes_eq_iff (entry_name f) n,
  bytes_eq_iff (entry_name f) name,
)

-- The name of the entry that ends a path.
abbrev pub last_name : Bytes → List Bytes → Bytes
last_name name [] = name
last_name name (next ∷ rest) = last_name next rest

abbrev pub ValidPath : Bytes → List Bytes → Type 0
ValidPath name [] = validate_entry_name name ≡ ok tt
ValidPath name (next ∷ rest) = (validate_entry_name name ≡ ok tt) × ValidPath next rest

module _ {sha256 : Bytes → Bytes} {to_json : List TreeEntry → Bytes}
    {from_json : Bytes → Option (List TreeEntry)}
    (faithful : IsFaithful sha256 to_json from_json) where
  -- The entries of a base, the empty tree if there is none.
  abbrev pub Loaded : Store → Option Digest → List TreeEntry → Type 0
  Loaded s none es = es ≡ []
  Loaded s (some h) es = read_tree sha256 from_json s h ≡ ok es

  -- Every tree on the way of the path can be read.
  abbrev pub Readable : Store → Option Digest → Bytes → List Bytes → Type 0
  Readable s base name [] = (es : List TreeEntry) × Loaded s base es
  Readable s base name (next ∷ rest) =
      (es : List TreeEntry) × Loaded s base es × Readable s (child_of name es) next rest

  load_base_lem :
      (s : Store) (base : Option Digest) (es : List TreeEntry)
      → Loaded s base es
      → (load_base sha256 to_json from_json base s ≡ (ok es, s)) × Valid es
  unfolding load_base load
  load_base_lem s none es e = (rw e, rw e (unfold validate_names in refl))
  load_base_lem s (some h) es e =
      let (_, _, _, _, v) = read_tree_sound sha256 from_json s h es e in (rw e, v)

  -- The result of a change at a path.
  pub record Changed (s : Store) (name : Bytes) (rest : List Bytes) (e : TreeEntry) (h : Digest)
      (t : Store) : Type 0 where
    pub keeps : Keeps s t
    pub addressed : IsAddressed sha256 t
    pub found : navigate_entry sha256 from_json t h name rest ≡ ok (some e)
    pub top : (es : List TreeEntry) × (read_tree sha256 from_json t h ≡ ok es)

  build_lem :
      (s : Store) (name : Bytes) (e : TreeEntry) (es : List TreeEntry)
      → IsAddressed sha256 s
      → Valid es
      → validate_entry_name name ≡ ok tt
      → entry_name e ≡ name
      → (h : Digest) × (t : Store) × (build_and_store sha256 to_json from_json
            (set_entry name e es)
            s
          ≡ (ok h, t))
        × Changed s name [] e h t
  unfolding navigate_entry find_entry_in_tree
  build_lem s name e es a v n k =
      let valid = set_entry-Valid name e es (rw k n) v in
      let (h, t, built, back, a', keep) =
        read_tree-build_and_store faithful (set_entry name e es) s a valid in
      let here : has_name name e ≡ true = (bytes_eq_iff (entry_name e) name).1 k in
      (
        h,
        t,
        built,
        record {
          keeps = keep;
          addressed = a';
          found = rw (back, find_name-sorted_entries, find-set_entry name name e es k, here);
          top = (sorted_entries (set_entry name e es), back);
        },
      )

  find_entry_Keeps :
      (s t : Store) (h : Digest) (name : Bytes) (o : Option TreeEntry)
      → Keeps s t
      → find_entry_in_tree sha256 from_json s h name ≡ ok o
      → find_entry_in_tree sha256 from_json t h name ≡ ok o
  unfolding find_entry_in_tree
  find_entry_Keeps s t h name o k e =
      let (es, r, p) = >>=-eq-ok (read_tree sha256 from_json s h) _ e in
      rw (read_tree-Keeps sha256 from_json s t h es k r) p

  at_hash_Keeps :
      (f g : Digest → Result (Option TreeEntry)) (o : Option Digest) (e : TreeEntry)
      → ((c : Digest) → f c ≡ ok (some e) → g c ≡ ok (some e))
      → at_hash f o ≡ ok (some e)
      → at_hash g o ≡ ok (some e)
  unfolding at_hash
  at_hash_Keeps f g none e k p = p
  at_hash_Keeps f g (some c) e k p = k c p

  -- Navigation finds the same in a store that holds more.
  navigate_entry-Keeps :
      (s t : Store) (h : Digest) (name : Bytes) (rest : List Bytes) (e : TreeEntry)
      → Keeps s t
      → navigate_entry sha256 from_json s h name rest ≡ ok (some e)
      → navigate_entry sha256 from_json t h name rest ≡ ok (some e)
  unfolding navigate_entry
  navigate_entry-Keeps s t h name [] e k q = find_entry_Keeps s t h name (some e) k q
  navigate_entry-Keeps s t h name (next ∷ rest) e k q =
      let (o, f, p) = >>=-eq-ok (find_entry_in_tree sha256 from_json s h name) _ q in
      let below = λ (c : Digest). navigate_entry-Keeps s t c next rest e k in
      rw (find_entry_Keeps s t h name o k f) (at_hash_Keeps _ _ (hash_of o) e below p)

  dir_entry_lem :
      (s : Store) (name : Bytes) (h : Digest) (es : List TreeEntry)
      → read_tree sha256 from_json s h ≡ ok es
      → (x : TreeEntry) × (dir_entry sha256 to_json from_json name h s ≡ (ok x, s))
        × (entry_name x ≡ name)
        × (entry_hash x ≡ some h)
  unfolding dir_entry tree_meta entry_name entry_hash
  dir_entry_lem s name h es e = (
    tree name h (aggregate_mtime es) (aggregate_size es) (aggregate_blob_count es),
    rw e,
    refl,
    refl,
  )

  -- One level up: the child was changed, and the directory gets an entry for it.
  lift_lem :
      (s : Store) (name next : Bytes) (rest : List Bytes) (e : TreeEntry) (es : List TreeEntry)
      (c : Digest) (s1 : Store)
      → Valid es
      → validate_entry_name name ≡ ok tt
      → Changed s next rest e c s1
      → (x : TreeEntry) × (h : Digest) × (t : Store) × (dir_entry sha256 to_json from_json name c s1
          ≡ (ok x, s1))
        × (build_and_store sha256 to_json from_json (set_entry name x es) s1 ≡ (ok h, t))
        × Changed s name (next ∷ rest) e h t
  unfolding navigate_entry find_entry_in_tree hash_of at_hash
  lift_lem s name next rest e es c s1 v n ch =
      let (ces, top) = ch.top in
      let (x, made, xn, xh) = dir_entry_lem s1 name c ces top in
      let (h, t, built, b) = build_lem s1 name x es ch.addressed v n xn in
      let below = navigate_entry-Keeps s1 t c next rest e b.keeps ch.found in
      (
        x,
        h,
        t,
        made,
        built,
        record {
          keeps = λ k bytes q. b.keeps k bytes (ch.keeps k bytes q);
          addressed = b.addressed;
          found = rw b.found (rw xh below);
          top = b.top;
        },
      )

  -- In a store where every object lies under its hash, with a hash that does not collide and
  -- entries that read back from their JSON: a splice at a path of valid names whose trees can be
  -- read, of an entry that has the path's last name, succeeds, keeps every object of the store,
  -- leaves every object under its hash, and the path leads from the new root to the new entry.
  pub splice_entry_lem :
      (s : Store) (base : Option Digest) (name : Bytes) (rest : List Bytes) (e : TreeEntry)
      → IsAddressed sha256 s
      → ValidPath name rest
      → entry_name e ≡ last_name name rest
      → Readable s base name rest
      → (h : Digest) × (t : Store) × (splice_entry sha256 to_json from_json base name rest e s
          ≡ (ok h, t))
        × Changed s name rest e h t
  unfolding splice_entry
  splice_entry_lem s base name [] e a n k (es, l) =
      let (loaded, v) = load_base_lem s base es l in
      let (h, t, built, c) = build_lem s name e es a v n k in (h, t, rw (loaded, built), c)
  splice_entry_lem s base name (next ∷ rest) e a n k (es, l, deeper) =
      let (loaded, v) = load_base_lem s base es l in
      let (c, s1, spliced, below) =
        splice_entry_lem s (child_of name es) next rest e a n.1 k deeper in
      let (x, h, t, made, built, ch) = lift_lem s name next rest e es c s1 v n.0 below in
      (h, t, rw (loaded, spliced, made, built), ch)
