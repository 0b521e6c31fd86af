-- ===== src/Object/Digest/Canonical.antt =====
-- The two halves of a `Hash` of src/object.rs, its hex text and its bytes.
use omemfs.Prelude.{
  ℕ, zero, suc, ◌+◌, ◌*◌, ◌/◌, ◌%◌, ◌<◌, ◌≡◌, refl, ap, sym, ◌∙◌, Bool, true, false, ◌&&◌, [], ◌∷◌,
  Option, none, some, ltb, ◌==◌, length, map, All, all_below, all_below_sound, arith, Option-cases,
  Bool-cases, inl, inr,
}
use omemfs.Prelude.Bytes.{Bytes, IsByte, bytes_eq, bytes_eq→eq, bytes_eq_refl}
use omemfs.Prelude.Options.{>>=-eq-some}
use omemfs.Prelude.Errors.{ok}
use omemfs.Object.Digest.{
  Digest, digest_eq, hex_nibble, hex_digit, encode_hex, to_lower, decode_pairs, from_hex,
  from_bytes,
}

-- What a nibble is, for the letter that it came from.
nibble_fits : ℕ → Option ℕ → Bool
nibble_fits c none = true
nibble_fits c (some v) = (hex_digit v == to_lower c) && ltb v 16

nibble_table : all_below 256 (λ c. nibble_fits c (hex_nibble c)) ≡ true
unfolding all_below nibble_fits hex_nibble hex_digit to_lower
nibble_table = refl

nibble_sound : (c v : ℕ) → IsByte c → hex_nibble c ≡ some v → (hex_digit v ≡ to_lower c) × (v < 16)
unfolding nibble_fits
nibble_sound c v h e =
    let fits : nibble_fits c (some v) ≡ true = rw e at (all_below_sound 256 _ c nibble_table h) in
    ground arith

digit_fits : ℕ → Option ℕ → Bool
digit_fits v none = false
digit_fits v (some w) = w == v

digit_table :
    all_below 16
      (λ v. digit_fits v (hex_nibble (hex_digit v)) && (to_lower (hex_digit v) == hex_digit v))
    ≡ true
unfolding all_below digit_fits hex_nibble hex_digit to_lower
digit_table = refl

digit_sound :
    (v : ℕ) → v < 16 → (hex_nibble (hex_digit v) ≡ some v) × (to_lower (hex_digit v) ≡ hex_digit v)
unfolding digit_fits
digit_sound v h = let fits = all_below_sound 16 _ v digit_table h in ground (arith, fits)

decode_pairs_inv :
    (a b : ℕ) (rest bytes : Bytes)
    → decode_pairs (a ∷ (b ∷ rest)) ≡ some bytes
    → (hi : ℕ) × (lo : ℕ) × (bs : Bytes) × (hex_nibble a ≡ some hi)
      × (hex_nibble b ≡ some lo)
      × (decode_pairs rest ≡ some bs)
      × (bytes ≡ (hi * 16 + lo) ∷ bs)
unfolding decode_pairs
decode_pairs_inv a b rest bytes e =
    let (hi, ea, k) = >>=-eq-some (hex_nibble a) _ e in
    let (lo, eb, k') = >>=-eq-some (hex_nibble b) _ k in
    let (bs, er, k'') = >>=-eq-some (decode_pairs rest) _ k' in
    (hi, lo, bs, ea, eb, er, ground arith)

decode_pairs_canonical :
    (hex bytes : Bytes) (n : ℕ)
    → length hex ≡ 2 * n
    → All IsByte hex
    → decode_pairs hex ≡ some bytes
    → (map to_lower hex ≡ encode_hex bytes) × (length bytes ≡ n)
unfolding encode_hex
decode_pairs_canonical [] bytes n l h e = unfold decode_pairs in ground arith
decode_pairs_canonical (a ∷ []) bytes n l h e = absurd (omega arith)
decode_pairs_canonical (a ∷ (b ∷ rest)) bytes zero l h e = absurd (omega arith)
decode_pairs_canonical (a ∷ (b ∷ rest)) bytes (suc n) l h e =
    let (hi, lo, bs, ea, eb, er, same) = decode_pairs_inv a b rest bytes e in
    let (ha, la) = nibble_sound a hi h.0 ea in
    let (hb, lb) = nibble_sound b lo h.1.0 eb in
    let (ih, len) = decode_pairs_canonical rest bs n (omega arith) h.1.1 er in
    let top : (hi * 16 + lo) / 16 ≡ hi = omega arith in
    let low : (hi * 16 + lo) % 16 ≡ lo = omega arith in
    rw same (rw (top, low, ha, hb, ih) refl, omega arith)

-- A text of bytes that is accepted has 64 of them, and the digest read from it is the one made from
-- its 32 bytes, whatever the letter case of the text.
pub from_hex_canonical :
    (hex : Bytes) (d : Digest)
    → All IsByte hex
    → from_hex hex ≡ ok d
    → (d ≡ from_bytes d.bytes) × (length d.bytes ≡ 32) × (length hex ≡ 64)
unfolding from_hex from_bytes
from_hex_canonical hex d h e = elim (Option-cases (decode_pairs hex)) [
  | inl bad ↦ ground arith
  | inr (bytes, good) ↦
      let full : length hex ≡ 2 * 32 = ground arith in
      ground (arith, decode_pairs_canonical hex bytes 32 full h good)
]

decode_pairs-encode_hex :
    (bytes : Bytes) → All IsByte bytes → decode_pairs (encode_hex bytes) ≡ some bytes
unfolding decode_pairs encode_hex
decode_pairs-encode_hex [] h = refl
decode_pairs-encode_hex (b ∷ bytes) h =
    ground (arith, digit_sound (b / 16), digit_sound (b % 16), decode_pairs-encode_hex bytes h.1)

lower-encode_hex :
    (bytes : Bytes) → All IsByte bytes → map to_lower (encode_hex bytes) ≡ encode_hex bytes
unfolding encode_hex
lower-encode_hex [] h = refl
lower-encode_hex (b ∷ bytes) h =
    let hi = digit_sound (b / 16) (omega arith) in
    let lo = digit_sound (b % 16) (omega arith) in rw (hi.1, lo.1, lower-encode_hex bytes h.1)

pub length-encode_hex : (bytes : Bytes) → length (encode_hex bytes) ≡ 2 * length bytes
unfolding encode_hex
length-encode_hex [] = omega arith
length-encode_hex (b ∷ bytes) = omega (arith, length-encode_hex bytes)

-- The hex text of any 32 bytes reads back as the digest of those bytes.
pub from_hex-from_bytes :
    (bytes : Bytes)
    → length bytes ≡ 32
    → All IsByte bytes
    → from_hex (from_bytes bytes).hex ≡ ok (from_bytes bytes)
unfolding from_hex from_bytes
from_hex-from_bytes bytes l h =
    ground
      (arith, length-encode_hex bytes, decode_pairs-encode_hex bytes h, lower-encode_hex bytes h)

-- A digest that `from_bytes` makes of 32 bytes, as every digest the program computes or reads is.
abbrev pub IsHash : Digest → Type 0
IsHash d = (d ≡ from_bytes d.bytes) × (length d.bytes ≡ 32) × All IsByte d.bytes

ok_injective : (a b : Digest) → ok a ≡ ok b → a ≡ b
ok_injective a b h = cc

-- Two digests with one hex text are one.
pub hex_injective : (a b : Digest) → IsHash a → IsHash b → a.hex ≡ b.hex → a ≡ b
hex_injective a b (p, n, i) (q, m, j) h =
    let left : from_hex a.hex ≡ ok a = rw (← p) at (from_hex-from_bytes a.bytes n i) in
    let right : from_hex b.hex ≡ ok b = rw (← q) at (from_hex-from_bytes b.bytes m j) in
    ok_injective a b (sym left ∙ ap from_hex h ∙ right)

pub digest_eq-hex : (a b : Digest) → IsHash a → IsHash b → digest_eq a b ≡ bytes_eq a.hex b.hex
unfolding digest_eq
digest_eq-hex a b p q = elim (Bool-cases (bytes_eq a.hex b.hex)) [
  | inl same ↦
      let e : a.bytes ≡ b.bytes =
        ap (λ (d : Digest). d.bytes) (hex_injective a b p q (bytes_eq→eq _ _ same)) in
      rw (same, e, bytes_eq_refl b.bytes)
  | inr different ↦ rw different
]
