-- ===== src/Base32.antt =====
-- src/base32.rs: the 32-letter code of connection strings. The bit buffers are u64: what a left
-- shift moves past bit 63 is lost, and `|` with a value below the shifted-in zeros is `+`.
pub mod RoundTrip
pub mod Refusal
use omemfs.Prelude.{
  ℕ, zero, suc, ◌+◌, ◌-◌, ◌*◌, ◌/◌, ◌%◌, ◌^◌, Bool, true, false, List, [], ◌∷◌, ◌++◌, ltb, ◌==◌,
  if◌then◌else◌, get_or, set, replicate,
}
use omemfs.Prelude.Bytes.{Bytes, codes}

-- `Err(String)` is the one error: an invalid character, which it names.
pub data Decoded : Type 0 where
  ok : Bytes → Decoded
  invalid_character : ℕ → Decoded

abbrev pub alphabet : Bytes
alphabet = codes "23456789abcdefghijkmnpqrstuvwxyz"

-- The loop over `ALPHABET.iter().enumerate()`.
fill : ℕ → Bytes → List ℕ → List ℕ
fill i [] table = table
fill i (c ∷ cs) table = fill (i + 1) cs (set table c i)

pub decode_table : List ℕ
unfolding fill
decode_table = fill 0 alphabet (replicate 256 0xFF)

-- `ALPHABET[idx]` and `table[c as usize]`; every index is in range.
pub letter : ℕ → ℕ
letter idx = get_or alphabet idx 0

pub value : ℕ → ℕ
unfolding decode_table
value c = get_or decode_table c 0xFF

-- `while bits >= 5`: the letters that are pushed, and the bits left.
pub take_letters : ℕ → ℕ → Bytes × ℕ
take_letters buf (suc (suc (suc (suc (suc bits))))) =
    let (out, left) = take_letters buf bits in (letter (buf / 2 ^ bits % 32) ∷ out, left)
take_letters buf bits = ([], bits)

pub encode_loop : Bytes → ℕ → ℕ → Bytes
unfolding take_letters
encode_loop [] buf bits =
    if ltb 0 bits then letter (buf * 2 ^ (5 - bits) % 2 ^ 64 % 32) ∷ [] else []
encode_loop (byte ∷ rest) buf bits =
    let buf' = buf * 256 % 2 ^ 64 + byte in
    let (out, left) = take_letters buf' (bits + 8) in out ++ encode_loop rest buf' left

pub encode : Bytes → Bytes
unfolding encode_loop
encode input = encode_loop input 0 0

-- `while bits >= 8`
pub take_bytes : ℕ → ℕ → Bytes × ℕ
take_bytes buf (suc (suc (suc (suc (suc (suc (suc (suc bits)))))))) =
    let (out, left) = take_bytes buf bits in ((buf / 2 ^ bits % 256) ∷ out, left)
take_bytes buf bits = ([], bits)

pub prepend : Bytes → Decoded → Decoded
prepend out (ok rest) = ok (out ++ rest)
prepend out (invalid_character c) = invalid_character c

pub decode_loop : Bytes → ℕ → ℕ → Decoded
unfolding take_bytes prepend
decode_loop [] buf bits = ok []
decode_loop (c ∷ rest) buf bits =
    let v = value c in
    let buf' = buf * 32 % 2 ^ 64 + v in
    let (out, left) = take_bytes buf' (bits + 5) in
    let more = prepend out (decode_loop rest buf' left) in
    if v == 0xFF then invalid_character c else more

pub decode : Bytes → Decoded
unfolding decode_loop
decode input = decode_loop input 0 0
