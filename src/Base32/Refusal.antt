-- ===== src/Base32/Refusal.antt =====
-- Which inputs the decoder of src/base32.rs refuses.
use omemfs.Prelude.{
  ℕ, ◌+◌, ◌*◌, ◌%◌, ◌^◌, ◌≡◌, refl, Bool, true, false, not, [], ◌∷◌, ◌++◌, ◌==◌, Option, none, some,
  any, find, All, all_below, all_below_sound, arith, Bool-cases, inl, inr,
}
use omemfs.Prelude.Bytes.{Bytes, IsByte}
use omemfs.Base32.{
  Decoded, ok, invalid_character, alphabet, value, take_bytes, prepend, decode_loop, decode,
}

pub is_letter : ℕ → Bool
is_letter c = any (λ a. a == c) alphabet

-- What the decoder owes for the first character that is no letter, if there is one.
abbrev pub Answers : Option ℕ → Decoded → Type 0
Answers none r = (out : Bytes) × (r ≡ ok out)
Answers (some c) r = r ≡ invalid_character c

same : Bool → Bool → Bool
same true b = b
same false b = not b

same_sound : (a b : Bool) → same a b ≡ true → a ≡ b
unfolding same
same_sound a b h = ground arith

letter_table : all_below 256 (λ c. same (value c == 0xFF) (not (is_letter c))) ≡ true
unfolding all_below value same is_letter
letter_table = refl

value-is_letter : (c : ℕ) → IsByte c → (value c == 0xFF) ≡ not (is_letter c)
value-is_letter c h = same_sound _ _ (all_below_sound 256 _ c letter_table h)

prepend-Answers :
    (o : Option ℕ) (out : Bytes) (r : Decoded) → Answers o r → Answers o (prepend out r)
unfolding prepend
prepend-Answers none out r (rest, e) = (out ++ rest, rw e)
prepend-Answers (some c) out r e = rw e

decode_loop-Answers :
    (input : Bytes) (buf bits : ℕ)
    → All IsByte input
    → Answers (find (λ c. not (is_letter c)) input) (decode_loop input buf bits)
unfolding decode_loop
decode_loop-Answers [] buf bits h = ([], refl)
decode_loop-Answers (c ∷ rest) buf bits h = elim (Bool-cases (is_letter c)) [
  | inl e ↦
      let buf' = buf * 32 % 2 ^ 64 + value c in
      rw (value-is_letter c h.0, e)
        (prepend-Answers _ _ _ (decode_loop-Answers rest buf' (take_bytes buf' (bits + 5)).1 h.1))
  | inr e ↦ rw (value-is_letter c h.0, e)
]

-- Decoding succeeds where every character is a letter of the alphabet, and otherwise fails with the
-- first that is none.
pub decode-Answers :
    (input : Bytes)
    → All IsByte input
    → Answers (find (λ c. not (is_letter c)) input) (decode input)
unfolding decode
decode-Answers input h = decode_loop-Answers input 0 0 h
