-- ===== src/Object/Entry/Sorting.antt =====
-- `Tree::sorted_entries` of src/object.rs: the order of the entries of a tree, which decides its hash.
use mathlib.Core.Path.{subst}
use omemfs.Prelude.{
  ◌≡◌, refl, ap₂, sym, ◌∙◌, Bool, true, List, [], ◌∷◌, Option, none, some, if◌then◌else◌, find,
  arith, Bool-cases, ◌⊎◌, inl, inr,
}
use omemfs.Prelude.Bytes.{
  Bytes, bytes_eq, bytes_eq_iff, bytes_eq→eq, bytes_eq_refl, bytes_lt, bytes_lt_irrefl,
  bytes_lt_trans, bytes_lt_tri,
}
use omemfs.Object.Entry.{TreeEntry, entry_name, insert_entry, sort_onto, sorted_entries}

-- Strictly ascending names, as a tree with one entry for each name has them.
abbrev pub NameBefore : Bytes → List TreeEntry → Type 0
NameBefore n [] = Unit
NameBefore n (e ∷ es) = bytes_lt n (entry_name e) ≡ true

abbrev pub Ascending : List TreeEntry → Type 0
Ascending [] = Unit
Ascending (e ∷ es) = NameBefore (entry_name e) es × Ascending es

abbrev pub has_name : Bytes → TreeEntry → Bool
has_name n e = bytes_eq (entry_name e) n

-- `entries.iter().find(|e| e.name() == name)`
unfoldable pub find_name : Bytes → List TreeEntry → Option TreeEntry
find_name n es = find (has_name n) es

abbrev pub DistinctNames : List TreeEntry → Type 0
DistinctNames [] = Unit
DistinctNames (e ∷ es) = (find_name (entry_name e) es ≡ none) × DistinctNames es

find_insert :
    (n : Bytes) (e : TreeEntry) (es : List TreeEntry)
    → find_name (entry_name e) es ≡ none
    → find_name n (insert_entry e es) ≡ (if has_name n e then some e else find_name n es)
unfolding find_name insert_entry
find_insert n e [] h = refl
find_insert n e (f ∷ fs) h = ground (
  arith,
  find_insert n e fs,
  bytes_eq_iff (entry_name e) n,
  bytes_eq_iff (entry_name f) n,
  bytes_eq_iff (entry_name f) (entry_name e),
)

insert_Ascending :
    (e : TreeEntry) (es : List TreeEntry)
    → find_name (entry_name e) es ≡ none
    → Ascending es
    → Ascending (insert_entry e es)
unfolding find_name insert_entry
insert_Ascending e [] h a = (tt, tt)
insert_Ascending e (f ∷ []) h a =
    ground (
      arith,
      bytes_lt_tri (entry_name e) (entry_name f),
      bytes_eq_iff (entry_name f) (entry_name e),
    )
insert_Ascending e (f ∷ (g ∷ fs)) h a = ground (
  arith,
  bytes_lt_tri (entry_name e) (entry_name f),
  bytes_eq_iff (entry_name f) (entry_name e),
  insert_Ascending e (g ∷ fs),
)

has_name_self : (e : TreeEntry) → has_name (entry_name e) e ≡ true
has_name_self e = bytes_eq_refl (entry_name e)

abbrev or_else : Option TreeEntry → Option TreeEntry → Option TreeEntry
or_else none b = b
or_else (some a) b = some a

-- No name is found in both lists.
abbrev Disjoint : List TreeEntry → List TreeEntry → Type 0
Disjoint xs ys = (n : Bytes) → (find_name n xs ≡ none) ⊎ (find_name n ys ≡ none)

Disjoint-head :
    (e : TreeEntry) (es sorted : List TreeEntry)
    → Disjoint (e ∷ es) sorted
    → find_name (entry_name e) sorted ≡ none
unfolding find_name
Disjoint-head e es sorted h = ground (arith, h (entry_name e), has_name_self e)

Disjoint-insert :
    (e : TreeEntry) (es sorted : List TreeEntry)
    → find_name (entry_name e) es ≡ none
    → Disjoint (e ∷ es) sorted
    → Disjoint es (insert_entry e sorted)
Disjoint-insert e es sorted u h n = elim (Bool-cases (has_name n e)) [
  | inl same ↦ let k : entry_name e ≡ n = bytes_eq→eq _ _ same in inl (rw k at u)
  | inr other ↦
      let found = find_insert n e sorted (Disjoint-head e es sorted h) in
      unfold find_name in ground (arith, h n, found)
]

found_head :
    (e : TreeEntry) (es sorted : List TreeEntry) (n : Bytes)
    → find_name (entry_name e) es ≡ none
    → or_else (find_name n es) (if has_name n e then some e else find_name n sorted)
      ≡ or_else (find_name n (e ∷ es)) (find_name n sorted)
found_head e es sorted n u = elim (Bool-cases (has_name n e)) [
  | inl same ↦
      let k : entry_name e ≡ n = bytes_eq→eq _ _ same in
      let u' : find_name n es ≡ none = rw k at u in rw (same, u') (unfold find_name in rw same)
  | inr other ↦ rw other (unfold find_name in rw other)
]

or_else-none : (o : Option TreeEntry) → or_else o none ≡ o
or_else-none none = refl
or_else-none (some e) = refl

-- What the insertions keep: the order, and what each name finds.
sort_onto_lem :
    (es sorted : List TreeEntry)
    → DistinctNames es
    → Ascending sorted
    → Disjoint es sorted
    → Ascending (sort_onto es sorted)
      × ((n : Bytes)
          → find_name n (sort_onto es sorted) ≡ or_else (find_name n es) (find_name n sorted))
unfolding sort_onto
sort_onto_lem [] sorted u a h = (a, λ n. unfold find_name in refl)
sort_onto_lem (e ∷ es) sorted u a h =
    let fresh = Disjoint-head e es sorted h in
    let (asc, found) =
      sort_onto_lem es (insert_entry e sorted) u.1 (insert_Ascending e sorted fresh a)
        (Disjoint-insert e es sorted u.0 h) in
    (asc, λ n. found n ∙ rw (find_insert n e sorted fresh) (found_head e es sorted n u.0))

-- Sorting entries with distinct names gives strictly ascending names, and every name finds the
-- entry that it found before.
pub sorted_entries-Ascending :
    (es : List TreeEntry)
    → DistinctNames es
    → Ascending (sorted_entries es)
      × ((n : Bytes) → find_name n (sorted_entries es) ≡ find_name n es)
unfolding sorted_entries
sorted_entries-Ascending es u =
    let (asc, found) = sort_onto_lem es [] u tt (λ n. inr (unfold find_name in refl)) in
    (asc, λ n. found n ∙ (unfold find_name in or_else-none _))

find_before :
    (n : Bytes) (e : TreeEntry) (es : List TreeEntry)
    → Ascending (e ∷ es)
    → bytes_lt n (entry_name e) ≡ true
    → find_name n (e ∷ es) ≡ none
unfolding find_name
find_before n e [] a h = ground (arith, bytes_eq_iff (entry_name e) n, bytes_lt_irrefl n)
find_before n e (f ∷ fs) a h = ground (
  arith,
  bytes_eq_iff (entry_name e) n,
  bytes_lt_irrefl n,
  bytes_lt_trans n (entry_name e) (entry_name f),
  find_before n f fs a.1,
)

SameFinds : List TreeEntry → List TreeEntry → Type 0
SameFinds xs ys = (n : Bytes) → find_name n xs ≡ find_name n ys

-- Behind a common head, too, the same names are found.
find_head : (e : TreeEntry) (es : List TreeEntry) → find_name (entry_name e) (e ∷ es) ≡ some e
unfolding find_name
find_head e es = rw (has_name_self e)

find_behind :
    (e : TreeEntry) (es : List TreeEntry) → Ascending (e ∷ es) → find_name (entry_name e) es ≡ none
find_behind e [] a = unfold find_name in refl
find_behind e (f ∷ fs) a = find_before (entry_name e) f fs a.1 a.0

tails_found :
    (e : TreeEntry) (xs ys : List TreeEntry)
    → Ascending (e ∷ xs)
    → Ascending (e ∷ ys)
    → SameFinds (e ∷ xs) (e ∷ ys)
    → SameFinds xs ys
unfolding SameFinds
tails_found e xs ys a b h n = elim (Bool-cases (has_name n e)) [
  | inl same ↦
      let k : entry_name e ≡ n = bytes_eq→eq _ _ same in
      rw (← k) (find_behind e xs a ∙ sym (find_behind e ys b))
  | inr other ↦ unfold find_name in ground (arith, h n)
]

heads_equal :
    (e f : TreeEntry) (xs ys : List TreeEntry)
    → Ascending (e ∷ xs)
    → Ascending (f ∷ ys)
    → SameFinds (e ∷ xs) (f ∷ ys)
    → e ≡ f
unfolding SameFinds
heads_equal e f xs ys a b h = elim (Bool-cases (bytes_lt (entry_name e) (entry_name f))) [
  | inl lt ↦ cc (h (entry_name e), find_head e xs, find_before (entry_name e) f ys b lt)
  | inr ge ↦ elim (Bool-cases (bytes_lt (entry_name f) (entry_name e))) [
    | inl gt ↦ cc (h (entry_name f), find_head f ys, find_before (entry_name f) e xs a gt)
    | inr le ↦
        let same = bytes_lt_tri (entry_name e) (entry_name f) ge le in
        let found : find_name (entry_name e) (f ∷ ys) ≡ some f = rw same (find_head f ys) in
        cc (h (entry_name e), find_head e xs, found)
  ]
]

Ascending-unique :
    (xs ys : List TreeEntry) → Ascending xs → Ascending ys → SameFinds xs ys → xs ≡ ys
Ascending-unique [] [] a b h = refl
Ascending-unique [] (f ∷ ys) a b h =
    unfold SameFinds find_name in cc (h (entry_name f), find_head f ys)
Ascending-unique (e ∷ xs) [] a b h =
    unfold SameFinds find_name in cc (h (entry_name e), find_head e xs)
Ascending-unique (e ∷ xs) (f ∷ ys) a b h =
    let k = heads_equal e f xs ys a b h in
    let b' : Ascending (e ∷ ys) = rw k b in
    let h' : SameFinds (e ∷ xs) (e ∷ ys) = subst (λ x. SameFinds (e ∷ xs) (x ∷ ys)) (sym k) h in
    ap₂ (λ x l. x ∷ l) k (Ascending-unique xs ys a.1 b.1 (tails_found e xs ys a b' h'))

-- Two lists of entries, each with distinct names, in which every name finds the same entry sort to
-- the same list.
pub sorted_entries_canonical :
    (xs ys : List TreeEntry)
    → DistinctNames xs
    → DistinctNames ys
    → ((n : Bytes) → find_name n xs ≡ find_name n ys)
    → sorted_entries xs ≡ sorted_entries ys
unfolding SameFinds
sorted_entries_canonical xs ys u v h =
    let (ax, fx) = sorted_entries-Ascending xs u in
    let (ay, fy) = sorted_entries-Ascending ys v in
    Ascending-unique _ _ ax ay (λ n. fx n ∙ h n ∙ sym (fy n))
