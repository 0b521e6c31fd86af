-- ===== src/Filter/Spread.antt =====
-- What `glob_match` of src/filter.rs looks for: the characters of the pattern, and the places of its
-- parts.
use omemfs.Prelude.{
  ℕ, suc, ◌+◌, ◌≤◌, ◌≡◌, refl, sym, ap, ◌∙◌, ◌≢◌, ◌↔◌, ◌⊎◌, inl, inr, true, false, List, [], ◌∷◌,
  ◌++◌, some, ◌==◌, if◌then◌else◌, length, arith, append_assoc, length-append, Bool-cases,
  Option-cases,
}
use omemfs.Prelude.Bytes.{Bytes, starts_with, starts_with-append, starts_with_sound}
use omemfs.Object.Names.{has_char}
use omemfs.Filter.Glob.{find_text}

-- A text without a slash: what a `*` stands for.
abbrev pub SlashFree : Bytes → Type 0
SlashFree s = has_char b'/' s ≡ false

-- `*` stands for any text without a slash, every other character for itself.
unfoldable pub Globs : Bytes → Bytes → Type 0
Globs [] name = name ≡ []
Globs (c ∷ pattern) name =
    ((c ≡ b'*')
      × (skipped : Bytes) × (rest : Bytes) × (name ≡ skipped ++ rest)
      × SlashFree skipped
      × Globs pattern rest)
    ⊎ ((c ≢ b'*') × (rest : Bytes) × (name ≡ c ∷ rest) × Globs pattern rest)

-- The same of the parts after the first `*`.
unfoldable pub Spread : List Bytes → Bytes → Type 0
Spread [] remaining = remaining ≡ []
Spread (part ∷ parts) remaining =
    (skipped : Bytes) × (rest : Bytes) × (remaining ≡ skipped ++ (part ++ rest))
    × SlashFree skipped
    × Spread parts rest

slashes : Bytes → ℕ
slashes [] = 0
slashes (c ∷ s) = if c == b'/' then suc (slashes s) else slashes s

slashes-append : (s t : Bytes) → slashes (s ++ t) ≡ slashes s + slashes t
unfolding slashes
slashes-append [] t = omega arith
slashes-append (c ∷ s) t = ground (arith, slashes-append s t)

SlashFree-iff : (s : Bytes) → SlashFree s ↔ (slashes s ≡ 0)
unfolding slashes has_char
SlashFree-iff [] = (λ h. refl, λ h. refl)
SlashFree-iff (c ∷ s) = ground (arith, SlashFree-iff s)

-- Of two ways to split one text, the longer front extends the shorter one.
split_longer :
    (d x y z : Bytes)
    → d ++ x ≡ y ++ z
    → length d ≤ length y
    → (e : Bytes) × (y ≡ d ++ e) × (x ≡ e ++ z)
split_longer [] x y z h k = (y, refl, h)
split_longer (c ∷ d) x [] z h k = absurd (omega arith)
split_longer (c ∷ d) x (b ∷ y) z h k =
    let (e, p, q) = split_longer d x y z (cc) (omega arith) in (e, cc, q)

-- Text without a slash in front is skipped by the next part.
Spread-skip :
    (m : Bytes) (part : Bytes) (parts : List Bytes) (r : Bytes)
    → SlashFree m
    → Spread (part ∷ parts) r
    → Spread (part ∷ parts) (m ++ r)
unfolding Spread
Spread-skip m part parts r h (skipped, rest, e, free, more) = (
  m ++ skipped,
  rest,
  rw (e, append_assoc m skipped (part ++ rest)) refl,
  (SlashFree-iff (m ++ skipped)).1 (
      omega
        (arith, slashes-append m skipped, (SlashFree-iff m).0 h, (SlashFree-iff skipped).0 free)),
  more,
)

-- An earlier place of a part serves as well as a later one.
pub Spread-earlier :
    (d y part a b : Bytes) (next : Bytes) (parts : List Bytes)
    → d ++ (part ++ a) ≡ y ++ (part ++ b)
    → length d ≤ length y
    → SlashFree y
    → Spread (next ∷ parts) b
    → SlashFree d × Spread (next ∷ parts) a
Spread-earlier d y part a b next parts h k free more =
    let (e, y_is, tail_is) = split_longer d (part ++ a) y (part ++ b) h k in
    let moved : part ++ a ≡ (e ++ part) ++ b = tail_is ∙ sym (append_assoc e part b) in
    let (m, front_is, a_is) =
      split_longer part a (e ++ part) b moved (omega (arith, length-append e part)) in
    let counted : slashes e + slashes part ≡ slashes part + slashes m =
      sym (slashes-append e part) ∙ ap slashes front_is ∙ slashes-append part m in
    let none_in_y : slashes d + slashes e ≡ 0 =
      sym (slashes-append d e) ∙ sym (ap slashes y_is) ∙ (SlashFree-iff y).0 free in
    (
      (SlashFree-iff d).1 (omega arith),
      rw a_is (Spread-skip m next parts b ((SlashFree-iff m).1 (omega arith)) more),
    )

-- `find` gives a place of the part.
pub find_text_sound :
    (part s : Bytes) (pos : ℕ)
    → find_text part s ≡ some pos
    → (front : Bytes) × (back : Bytes) × (s ≡ front ++ (part ++ back)) × (pos ≡ length front)
unfolding find_text
find_text_sound part [] pos h = elim (Bool-cases (starts_with [] part)) [
  | inl here ↦ let (back, e) = starts_with_sound [] part here in ([], back, e, ground arith)
  | inr gone ↦ ground arith
]
find_text_sound part (c ∷ s) pos h = elim (Bool-cases (starts_with (c ∷ s) part)) [
  | inl here ↦ let (back, e) = starts_with_sound (c ∷ s) part here in ([], back, e, ground arith)
  | inr gone ↦ elim (Option-cases (find_text part s)) [
    | inl never ↦ ground arith
    | inr (i, found) ↦
        let (front, back, e, l) = find_text_sound part s i found in
        (c ∷ front, back, ap (λ t. c ∷ t) e, ground arith)
  ]
]

find_text_here : (part s : Bytes) → starts_with s part ≡ true → find_text part s ≡ some 0
unfolding find_text
find_text_here part [] h = rw h refl
find_text_here part (c ∷ s) h = rw h refl

-- And the first one.
pub find_text_first :
    (part y rest : Bytes)
    → (pos : ℕ) × (find_text part (y ++ (part ++ rest)) ≡ some pos) × (pos ≤ length y)
unfolding find_text
find_text_first part [] rest =
    (0, find_text_here part (part ++ rest) (starts_with-append part rest), omega arith)
find_text_first part (c ∷ y) rest =
    let (i, found, small) = find_text_first part y rest in
    elim (Bool-cases (starts_with (c ∷ (y ++ (part ++ rest))) part)) [
      | inl here ↦ (0, rw here refl, omega arith)
      | inr gone ↦ (suc i, rw (gone, found) refl, omega arith)
    ]
