-- ===== src/Object/Names/Paths.antt =====
-- Paths joined from entry names, and the names that src/object.rs keeps from a tree.
use omemfs.Prelude.{
  ℕ, ◌-◌, ◌≡◌, refl, ap, sym, ◌∙◌, ◌≢◌, true, false, List, [], ◌∷◌, ◌++◌, ◌==◌, if◌then◌else◌,
  is_empty, length, drop, take, All, arith, Bool-cases, ◌⊎◌, inl, inr, take-append-drop, append-nil,
  append_assoc,
}
use omemfs.Prelude.Bytes.{
  Bytes, codes, bytes_eq, bytes_eq→eq, starts_with, starts_with_sound, contains-append,
}
use omemfs.Prelude.Errors.{ok, err, invalid_object}
use omemfs.Object.Names.{
  has_char, ends_with, is_reserved_name, is_conflict_artifact, conflict_suffix_base,
  conflict_suffix_local, conflict_suffix_remote, conflict_meta_suffix, is_working_tree_tmp,
  validate_entry_name,
}

-- `format!("{}/{}", prefix, name)`, and the name alone under an empty prefix.
unfoldable pub join_path : Bytes → Bytes → Bytes
join_path prefix name = if is_empty prefix then name else prefix ++ (b'/' ∷ name)

-- `path.split('/')`
unfoldable pub split_path : Bytes → List Bytes
split_path [] = [] ∷ []
split_path (c ∷ path) = elim (split_path path) [
  | [] ↦ []
  | first ∷ rest ↦ if c == b'/' then [] ∷ (first ∷ rest) else (c ∷ first) ∷ rest
]

-- The path that the walks over trees give to the names from the root down.
unfoldable pub path_of : Bytes → List Bytes → Bytes
unfolding join_path
path_of prefix [] = prefix
path_of prefix (name ∷ names) = path_of (join_path prefix name) names

abbrev pub IsName : Bytes → Type 0
IsName name = validate_entry_name name ≡ ok tt

-- What the check promises of a name.
pub name_facts : (name : Bytes) → IsName name → (name ≢ []) × (has_char b'/' name ≡ false)
unfolding validate_entry_name
name_facts [] h = cc
name_facts (c ∷ name) h = (λ e. cc, ground arith)

pub split_path-name : (name : Bytes) → has_char b'/' name ≡ false → split_path name ≡ name ∷ []
unfolding split_path has_char
split_path-name [] h = refl
split_path-name (c ∷ name) h = ground (arith, split_path-name name)

split_path_ne_nil : (q : Bytes) → (f : Bytes) × (r : List Bytes) × (split_path q ≡ f ∷ r)
unfolding split_path
split_path_ne_nil [] = ([], [], refl)
split_path_ne_nil (c ∷ q) =
    let (f, r, e) = split_path_ne_nil q in
    elim (Bool-cases (c == b'/')) [
      | inl sep ↦ ([], f ∷ r, rw (e, sep))
      | inr other ↦ (c ∷ f, r, rw (e, other))
    ]

-- A separator ends the last part before it.
pub split_path-append : (p q : Bytes) → split_path (p ++ (b'/' ∷ q)) ≡ split_path p ++ split_path q
unfolding split_path
split_path-append [] q = let (f, r, e) = split_path_ne_nil q in rw e
split_path-append (c ∷ p) q =
    let (f, r, e) = split_path_ne_nil p in ground (arith, e, split_path-append p q)

path_of-split :
    (c : ℕ) (prefix : Bytes) (names : List Bytes)
    → All IsName names
    → split_path (path_of (c ∷ prefix) names) ≡ split_path (c ∷ prefix) ++ names
unfolding path_of
path_of-split c prefix [] h = sym (append-nil _)
path_of-split c prefix (name ∷ names) h =
    path_of-split c (prefix ++ (b'/' ∷ name)) names h.1
    ∙ ap (λ l. l ++ names) (split_path-append (c ∷ prefix) name)
    ∙ rw (split_path-name name (name_facts name h.0).1, append_assoc)

-- A path that a walk joins from names that pass the check splits into exactly those names.
pub split_path-path_of :
    (name : Bytes) (names : List Bytes)
    → IsName name
    → All IsName names
    → split_path (path_of [] (name ∷ names)) ≡ name ∷ names
unfolding path_of
split_path-path_of [] names h k = absurd ((name_facts [] h).0 refl)
split_path-path_of (c ∷ name) names h k =
    path_of-split c name names k ∙ rw (split_path-name (c ∷ name) (name_facts (c ∷ name) h).1)

ends_with_sound : (name s : Bytes) → ends_with name s ≡ true → (front : Bytes) × (name ≡ front ++ s)
unfolding ends_with
ends_with_sound name s h =
    let k = length name - length s in
    (take k name, cc (take-append-drop k name, bytes_eq→eq (drop k name) s (ground arith)))

reserved_behind :
    (front rest : Bytes) → is_reserved_name (front ++ (codes ".omemfs-" ++ rest)) ≡ true
unfolding is_reserved_name
reserved_behind front rest = contains-append front (codes ".omemfs-") rest

artifact_reserved : (name : Bytes) → is_conflict_artifact name ≡ true → is_reserved_name name ≡ true
unfolding is_conflict_artifact
artifact_reserved name h = elim (Bool-cases (ends_with name conflict_suffix_base)) [
  | inl e ↦
      let (f, k) = ends_with_sound name _ e in rw k (reserved_behind f (codes "conflict-base"))
  | inr e1 ↦ elim (Bool-cases (ends_with name conflict_suffix_local)) [
    | inl e ↦
        let (f, k) = ends_with_sound name _ e in rw k (reserved_behind f (codes "conflict-local"))
    | inr e2 ↦ elim (Bool-cases (ends_with name conflict_suffix_remote)) [
      | inl e ↦
          let (f, k) = ends_with_sound name _ e in
          rw k (reserved_behind f (codes "conflict-remote"))
      | inr e3 ↦
          let e : ends_with name conflict_meta_suffix ≡ true = ground arith in
          let (f, k) = ends_with_sound name _ e in rw k (reserved_behind f (codes "conflict-meta"))
    ]
  ]
]

tmp_reserved : (name : Bytes) → is_working_tree_tmp name ≡ true → is_reserved_name name ≡ true
unfolding is_working_tree_tmp
tmp_reserved name h =
    let (r, e) = starts_with_sound name _ h in rw e (reserved_behind [] (codes "tmp-" ++ r))

-- The exact name `.omemfs-filter` is neither an artifact nor a staging file.
filter_is_content :
    (is_conflict_artifact (codes ".omemfs-filter") ≡ false)
    × (is_working_tree_tmp (codes ".omemfs-filter") ≡ false)
unfolding is_conflict_artifact is_working_tree_tmp ends_with starts_with bytes_eq
filter_is_content = (refl, refl)

reserved_refused :
    (name : Bytes)
    → bytes_eq name (codes ".omemfs-filter") ≡ false
    → is_reserved_name name ≡ true
    → validate_entry_name name ≡ err invalid_object
unfolding validate_entry_name
reserved_refused name h k = ground arith

-- The check on entry names refuses every name of a conflict helper, a conflict sidecar or a staging
-- file.
pub validate-artifact :
    (name : Bytes)
    → (is_conflict_artifact name ≡ true) ⊎ (is_working_tree_tmp name ≡ true)
    → validate_entry_name name ≡ err invalid_object
validate-artifact name h = elim (Bool-cases (bytes_eq name (codes ".omemfs-filter"))) [
  | inl same ↦
      let e = bytes_eq→eq name _ same in
      elim h [
        | inl a ↦ cc (filter_is_content.0, ap is_conflict_artifact e)
        | inr t ↦ cc (filter_is_content.1, ap is_working_tree_tmp e)
      ]
  | inr other ↦ elim h [
    | inl a ↦ reserved_refused name other (artifact_reserved name a)
    | inr t ↦ reserved_refused name other (tmp_reserved name t)
  ]
]
