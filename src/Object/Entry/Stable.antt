-- ===== src/Object/Entry/Stable.antt =====
-- `Tree::sorted_entries` of src/object.rs where several entries have one name.
use omemfs.Prelude.{
  ◌≡◌, refl, sym, ap, ◌∙◌, Bool, true, false, List, [], ◌∷◌, Option, none, some, if◌then◌else◌,
  arith, Bool-cases, inl, inr,
}
use omemfs.Prelude.Bytes.{
  Bytes, bytes_eq_iff, bytes_eq→eq, bytes_lt, bytes_lt_irrefl, bytes_lt_trans, bytes_lt_split,
}
use omemfs.Object.Entry.{TreeEntry, entry_name, insert_entry, sort_onto, sorted_entries}
use omemfs.Object.Entry.Sorting.{has_name, find_name}

-- No name is before the one in front of it.
abbrev NotBehind : Bytes → List TreeEntry → Type 0
NotBehind n [] = Unit
NotBehind n (e ∷ es) = bytes_lt (entry_name e) n ≡ false

abbrev NotDescending : List TreeEntry → Type 0
NotDescending [] = Unit
NotDescending (e ∷ es) = NotBehind (entry_name e) es × NotDescending es

abbrev or_else : Option TreeEntry → Option TreeEntry → Option TreeEntry
or_else none b = b
or_else (some a) b = some a

abbrev only : Bytes → TreeEntry → Option TreeEntry
only n e = if has_name n e then some e else none

find_before :
    (n : Bytes) (e : TreeEntry) (es : List TreeEntry)
    → NotDescending (e ∷ es)
    → bytes_lt n (entry_name e) ≡ true
    → find_name n (e ∷ es) ≡ none
unfolding find_name
find_before n e [] a h = ground (arith, bytes_eq_iff (entry_name e) n, bytes_lt_irrefl n)
find_before n e (f ∷ fs) a h = elim (Bool-cases (bytes_lt n (entry_name f))) [
  | inl lt ↦
      ground (arith, bytes_eq_iff (entry_name e) n, bytes_lt_irrefl n, find_before n f fs a.1 lt)
  | inr ge ↦ ground (arith, bytes_lt_split n (entry_name f) (entry_name e) h ge)
]

find_cons :
    (n : Bytes) (e : TreeEntry) (es : List TreeEntry)
    → find_name n (e ∷ es) ≡ (if has_name n e then some e else find_name n es)
unfolding find_name
find_cons n e es = refl

or_else-none : (o : Option TreeEntry) → or_else o none ≡ o
or_else-none none = refl
or_else-none (some e) = refl

or_else_assoc : (a b c : Option TreeEntry) → or_else (or_else a b) c ≡ or_else a (or_else b c)
or_else_assoc none b c = refl
or_else_assoc (some a) b c = refl

or_else_if :
    (b : Bool) (f : TreeEntry) (o p : Option TreeEntry)
    → (if b then some f else or_else o p) ≡ or_else (if b then some f else o) p
or_else_if true f o p = refl
or_else_if false f o p = refl

find_insert :
    (n : Bytes) (e : TreeEntry) (es : List TreeEntry)
    → NotDescending es
    → find_name n (insert_entry e es) ≡ or_else (find_name n es) (only n e)
unfolding insert_entry
find_insert n e [] a = find_cons n e [] ∙ (unfold find_name in refl)
find_insert n e (f ∷ fs) a = elim (Bool-cases (bytes_lt (entry_name e) (entry_name f))) [
  | inr ge ↦
      rw (ge, find_cons n f (insert_entry e fs), find_insert n e fs a.1, find_cons n f fs)
        (or_else_if (has_name n f) f (find_name n fs) (only n e))
  | inl lt ↦
      rw (lt, find_cons n e (f ∷ fs))
        (elim (Bool-cases (has_name n e)) [
          | inr other ↦ rw (other, or_else-none)
          | inl same ↦
              let k = bytes_eq→eq _ _ same in
              let away : find_name n (f ∷ fs) ≡ none = find_before n f fs a (rw k at lt) in
              rw (same, away)
        ])
]

ge_of_lt : (a b : Bytes) → bytes_lt a b ≡ true → bytes_lt b a ≡ false
ge_of_lt a b h = elim (Bool-cases (bytes_lt b a)) [
  | inr ge ↦ ge
  | inl lt ↦ cc (bytes_lt_trans a b a h lt, bytes_lt_irrefl a)
]

insert-NotDescending :
    (e : TreeEntry) (es : List TreeEntry) → NotDescending es → NotDescending (insert_entry e es)
unfolding insert_entry
insert-NotDescending e [] a = (tt, tt)
insert-NotDescending e (f ∷ []) a = ground (arith, ge_of_lt (entry_name e) (entry_name f))
insert-NotDescending e (f ∷ (g ∷ fs)) a =
    ground (arith, ge_of_lt (entry_name e) (entry_name f), insert-NotDescending e (g ∷ fs))

only_else :
    (n : Bytes) (e : TreeEntry) (es : List TreeEntry)
    → or_else (only n e) (find_name n es) ≡ (if has_name n e then some e else find_name n es)
only_else n e es = elim (Bool-cases (has_name n e)) [ inl same ↦ rw same | inr other ↦ rw other ]

find_sort_onto :
    (n : Bytes) (es sorted : List TreeEntry)
    → NotDescending sorted
    → find_name n (sort_onto es sorted) ≡ or_else (find_name n sorted) (find_name n es)
unfolding sort_onto
find_sort_onto n [] sorted a = sym (unfold find_name in or_else-none (find_name n sorted))
find_sort_onto n (e ∷ es) sorted a =
    find_sort_onto n es (insert_entry e sorted) (insert-NotDescending e sorted a)
    ∙ rw (find_insert n e sorted a, or_else_assoc, find_cons n e es)
        (ap (or_else (find_name n sorted)) (only_else n e es))

-- After the sort every name finds the entry that it found before, also where several entries have
-- the name.
pub find_name-sorted_entries :
    (n : Bytes) (es : List TreeEntry) → find_name n (sorted_entries es) ≡ find_name n es
unfolding sorted_entries
find_name-sorted_entries n es = find_sort_onto n es [] tt ∙ (unfold find_name in refl)
