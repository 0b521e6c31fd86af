-- ===== src/Codec/RoundTrip.antt =====
-- `encode` followed by `decode` of src/codec/mod.rs, and the length of what is stored.
use omemfs.Prelude.{
  ℕ, zero, suc, ◌+◌, min, ◌≤◌, ◌≡◌, refl, Bool, true, false, [], ◌∷◌, Option, none, some, ltb, ◌==◌,
  length, take, arith, Bool-cases, inl, inr,
}
use omemfs.Prelude.Bytes.{Bytes}
use omemfs.Prelude.Errors.{ok}
use omemfs.Codec.{
  Zstd, Cipher, decompress_max, tag_len, needs_escape, raw_stored_len, escape_raw_owned, compress,
  decompress_zstd_bytes, decompress, encrypt, decrypt, encode, decode,
}

-- zstd gives back what it compressed, with the dictionary and without it.
abbrev pub IsLossless : Zstd → Type 0
IsLossless zstd =
    (dict : Bool) (content : Bytes) → zstd.unzip dict (zstd.zip dict content) ≡ (content, true)

-- A sealed text opens under its key and nonce, and carries a tag of 16 bytes.
pub record IsAuthentic (cipher : Cipher) : Type 0 where
  pub opens :
      (key nonce text : Bytes) → cipher.unseal key nonce (cipher.seal key nonce text) ≡ some text
  pub tagged : (key nonce text : Bytes) → length (cipher.seal key nonce text) ≡ length text + 16

take_all : (n : ℕ) (xs : Bytes) → length xs ≤ n → take n xs ≡ xs
take_all zero [] h = refl
take_all zero (x ∷ xs) h = absurd (omega arith)
take_all (suc n) [] h = refl
take_all (suc n) (x ∷ xs) h = rw (take_all n xs (omega arith))

decompress-zip :
    (zstd : Zstd)
    → IsLossless zstd
    → (dict : Bool) (content : Bytes) → length content ≤ decompress_max
    → decompress_zstd_bytes zstd dict (zstd.zip dict content) ≡ ok content
unfolding decompress_zstd_bytes
decompress-zip zstd l dict content h =
    rw (l dict content, decompress_zstd_bytes)
      (rw (take_all (decompress_max + 1) content (omega arith)) (ground arith))

decompress-escape_raw_owned :
    (zstd : Zstd) (content : Bytes) → decompress zstd (escape_raw_owned content) ≡ ok content
unfolding decompress escape_raw_owned needs_escape
decompress-escape_raw_owned zstd [] = refl
decompress-escape_raw_owned zstd (a ∷ []) = refl
decompress-escape_raw_owned zstd (a ∷ (b ∷ rest)) = ground arith

-- Whichever of the three candidates is the smallest.
pub decompress-compress :
    (zstd : Zstd)
    → IsLossless zstd
    → (content : Bytes) → length content ≤ decompress_max
    → decompress zstd (compress zstd content) ≡ ok content
unfolding compress
decompress-compress zstd l content h =
    let dict_total = 2 + length (zstd.zip true content) in
    let plain_total = 2 + length (zstd.zip false content) in
    let best = min (min dict_total plain_total) (raw_stored_len content) in
    elim (Bool-cases (best == dict_total)) [
      | inl p ↦ rw p (unfold decompress in decompress-zip zstd l true content h)
      | inr n ↦ elim (Bool-cases (best == plain_total)) [
        | inl p ↦ rw (n, p) (unfold decompress in decompress-zip zstd l false content h)
        | inr m ↦ rw (n, m) (decompress-escape_raw_owned zstd content)
      ]
    ]

decrypt-encrypt :
    (cipher : Cipher)
    → IsAuthentic cipher
    → (content : Bytes) (key : Option Bytes) (hash : Bytes)
    → decrypt cipher (encrypt cipher content key hash) key hash ≡ ok content
unfolding decrypt encrypt tag_len
decrypt-encrypt cipher a content none hash = refl
decrypt-encrypt cipher a content (some key) hash =
    let n = a.tagged key (take 12 hash) content in
    let long : ltb (length (cipher.seal key (take 12 hash) content)) 16 ≡ false = ground arith in
    rw (long, a.opens key (take 12 hash) content)

-- An object of at most 64 MiB that is encoded for storage, with a key or with none, decodes to
-- itself under the same key and hash, where zstd gives back what it compressed and AES-GCM opens
-- what it sealed.
pub encode_lem :
    (zstd : Zstd) (cipher : Cipher)
    → IsLossless zstd
    → IsAuthentic cipher
    → (serialised : Bytes) (key : Option Bytes) (hash : Bytes) → length serialised ≤ decompress_max
    → decode zstd cipher (encode zstd cipher serialised key hash) key hash ≡ ok serialised
unfolding decode encode
encode_lem zstd cipher l a serialised key hash h =
    rw (decrypt-encrypt cipher a (compress zstd serialised) key hash)
      (decompress-compress zstd l serialised h)

length-compress :
    (zstd : Zstd) (content : Bytes) → length (compress zstd content) ≤ length content + 2
unfolding compress raw_stored_len escape_raw_owned
length-compress zstd content = ground arith

-- Storing an object adds at most 18 bytes to it, where AES-GCM adds 16: zstd's output is kept only
-- where it is no longer than the object as it is.
pub length-encode :
    (zstd : Zstd) (cipher : Cipher)
    → IsAuthentic cipher
    → (serialised : Bytes) (key : Option Bytes) (hash : Bytes)
    → length (encode zstd cipher serialised key hash) ≤ length serialised + 18
unfolding encode encrypt
length-encode zstd cipher a serialised none hash = omega (arith, length-compress zstd serialised)
length-encode zstd cipher a serialised (some key) hash =
    omega (
      arith,
      length-compress zstd serialised,
      a.tagged key (take 12 hash) (compress zstd serialised),
    )
