-- ===== src/Prelude/Bytes.antt =====
-- Byte strings (`&[u8]`, `Vec<u8>`, and `&str` read by its UTF-8 bytes): lists of numbers below 256.
use Prim.Native.Char.{code}
use Prim.Native.String.{String}
use omemfs.Prelude.Tests.{Bool-cases, Option-cases, ◌==◌, ltb, if◌then◌else◌}
use Prim.Native.Nat.{ℕ, ◌<◌}
use mathlib.Core.Path.{◌≡◌, refl}
use mathlib.Core.Logic.{◌↔◌, inl, inr}
use mathlib.Core.Bool.{Bool, true, false, ◌&&◌, ◌||◌}
use mathlib.Core.List.{List, [], ◌∷◌, ◌++◌}
use mathlib.Core.Option.{Option, none, some}
use native.Mathlib.Omega.{arith}

abbrev pub Bytes : Type 0
Bytes = List ℕ

abbrev pub IsByte : ℕ → Type 0
IsByte b = b < 256

-- The bytes of an ASCII literal.
abbrev pub codes : String → Bytes
codes String.[] = []
codes (String.◌∷◌ c s) = code c ∷ codes s

unfoldable pub bytes_eq : Bytes → Bytes → Bool
bytes_eq [] [] = true
bytes_eq [] (b ∷ bs) = false
bytes_eq (a ∷ as') [] = false
bytes_eq (a ∷ as') (b ∷ bs) = (a == b) && bytes_eq as' bs

pub bytes_eq→eq : (a b : Bytes) → bytes_eq a b ≡ true → a ≡ b
unfolding bytes_eq
bytes_eq→eq [] [] h = refl
bytes_eq→eq [] (b ∷ bs) h = cc
bytes_eq→eq (a ∷ as') [] h = cc
bytes_eq→eq (a ∷ as') (b ∷ bs) h = ground (arith, bytes_eq→eq as' bs)

pub bytes_eq_refl : (a : Bytes) → bytes_eq a a ≡ true
unfolding bytes_eq
bytes_eq_refl [] = refl
bytes_eq_refl (a ∷ as') = ground (arith, bytes_eq_refl as')

pub bytes_eq_iff : (a b : Bytes) → (bytes_eq a b ≡ true) ↔ (a ≡ b)
bytes_eq_iff a b = (bytes_eq→eq a b, λ e. rw e (bytes_eq_refl b))

-- Lexicographic order (`Ord` of `[u8]` and of `str`).
unfoldable pub bytes_lt : Bytes → Bytes → Bool
bytes_lt [] [] = false
bytes_lt [] (b ∷ bs) = true
bytes_lt (a ∷ as') [] = false
bytes_lt (a ∷ as') (b ∷ bs) = ltb a b || ((a == b) && bytes_lt as' bs)

pub bytes_lt_irrefl : (a : Bytes) → bytes_lt a a ≡ false
unfolding bytes_lt
bytes_lt_irrefl [] = refl
bytes_lt_irrefl (a ∷ as') = ground (arith, bytes_lt_irrefl as')

pub bytes_lt_trans :
    (a b c : Bytes) → bytes_lt a b ≡ true → bytes_lt b c ≡ true → bytes_lt a c ≡ true
unfolding bytes_lt
bytes_lt_trans [] [] c h k = cc
bytes_lt_trans [] (b ∷ bs) [] h k = cc
bytes_lt_trans [] (b ∷ bs) (c ∷ cs) h k = refl
bytes_lt_trans (a ∷ as') [] c h k = cc
bytes_lt_trans (a ∷ as') (b ∷ bs) [] h k = cc
bytes_lt_trans (a ∷ as') (b ∷ bs) (c ∷ cs) h k = ground (arith, bytes_lt_trans as' bs cs)

-- Neither before the other: equal.
pub bytes_lt_tri : (a b : Bytes) → bytes_lt a b ≡ false → bytes_lt b a ≡ false → a ≡ b
unfolding bytes_lt
bytes_lt_tri [] [] h k = refl
bytes_lt_tri [] (b ∷ bs) h k = cc
bytes_lt_tri (a ∷ as') [] h k = cc
bytes_lt_tri (a ∷ as') (b ∷ bs) h k = ground (arith, bytes_lt_tri as' bs)

-- `s.strip_prefix(p)`
unfoldable pub strip_prefix : Bytes → Bytes → Option Bytes
strip_prefix [] s = some s
strip_prefix (p ∷ ps) [] = none
strip_prefix (p ∷ ps) (c ∷ s) = if p == c then strip_prefix ps s else none

pub strip_prefix-append : (p s : Bytes) → strip_prefix p (p ++ s) ≡ some s
unfolding strip_prefix
strip_prefix-append [] s = refl
strip_prefix-append (p ∷ ps) s = ground (arith, strip_prefix-append ps s)

pub strip_prefix_sound : (p s : Bytes) (r : Bytes) → strip_prefix p s ≡ some r → s ≡ p ++ r
unfolding strip_prefix
strip_prefix_sound [] s r h = ground arith
strip_prefix_sound (p ∷ ps) [] r h = cc
strip_prefix_sound (p ∷ ps) (c ∷ s) r h = ground (arith, strip_prefix_sound ps s r)

-- `s.starts_with(p)`
unfoldable pub starts_with : Bytes → Bytes → Bool
unfolding strip_prefix
starts_with s p = elim (strip_prefix p s) [ none ↦ false | some _ ↦ true ]

-- `s.contains(p)` for a non-empty `p`
unfoldable pub contains : Bytes → Bytes → Bool
unfolding starts_with
contains [] p = starts_with [] p
contains (c ∷ s) p = starts_with (c ∷ s) p || contains s p

pub starts_with-append : (p s : Bytes) → starts_with (p ++ s) p ≡ true
unfolding starts_with
starts_with-append p s = rw (strip_prefix-append p s, starts_with)

pub starts_with_sound : (s p : Bytes) → starts_with s p ≡ true → (r : Bytes) × (s ≡ p ++ r)
unfolding starts_with
starts_with_sound s p h = elim (Option-cases (strip_prefix p s)) [
  | inl e ↦ ground arith
  | inr (r, e) ↦ (r, strip_prefix_sound p s r e)
]

contains_of_starts_with : (s p : Bytes) → starts_with s p ≡ true → contains s p ≡ true
unfolding contains
contains_of_starts_with [] p h = h
contains_of_starts_with (c ∷ s) p h = rw h

-- A text that stands in the middle is found.
pub contains-append : (front p back : Bytes) → contains (front ++ (p ++ back)) p ≡ true
unfolding contains
contains-append [] p back = contains_of_starts_with (p ++ back) p (starts_with-append p back)
contains-append (c ∷ front) p back = ground (arith, contains-append front p back)

-- Whatever lies between two texts is behind the first or before the second.
pub bytes_lt_split :
    (a b c : Bytes) → bytes_lt a c ≡ true → bytes_lt a b ≡ false → bytes_lt b c ≡ true
bytes_lt_split a b c h k = elim (Bool-cases (bytes_lt b a)) [
  | inl lt ↦ bytes_lt_trans b a c lt h
  | inr ge ↦ let e = bytes_lt_tri a b k ge in rw e at h
]
