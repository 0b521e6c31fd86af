-- ===== src/Object/Digest.antt =====
-- `Hash` of src/object.rs. SHA-256 itself is third-party code: a parameter `sha256` where it is used.
pub mod Canonical
use omemfs.Prelude.{
  ℕ, ◌+◌, ◌-◌, ◌*◌, ◌/◌, ◌%◌, Bool, true, false, ◌&&◌, List, [], ◌∷◌, ◌++◌, Option, none, some, leb,
  ◌==◌, if◌then◌else◌, get_or, length, map,
}
use omemfs.Prelude.Bytes.{Bytes, codes, bytes_eq, bytes_lt}
use omemfs.Prelude.Options.{◌>>=◌}
use omemfs.Prelude.Errors.{Error, Result, ok, err, invalid_hash}

-- `Hash`: the hex text and the 32 bytes, both compared by the derived `==`.
pub record Digest : Type 0 where
  pub hex : Bytes
  pub bytes : Bytes

unfoldable pub digest_eq : Digest → Digest → Bool
digest_eq a b = bytes_eq a.hex b.hex && bytes_eq a.bytes b.bytes

-- `a.as_str() < b.as_str()`
unfoldable pub digest_lt : Digest → Digest → Bool
digest_lt a b = bytes_lt a.hex b.hex

unfoldable pub hex_nibble : ℕ → Option ℕ
hex_nibble b =
    if leb b'0' b && leb b b'9'
    then some (b - b'0')
    else if leb b'a' b && leb b b'f'
    then some (b - b'a' + 10)
    else if leb b'A' b && leb b b'F'
    then some (b - b'A' + 10)
    else none

abbrev hex_digits : Bytes
hex_digits = codes "0123456789abcdef"

unfoldable pub hex_digit : ℕ → ℕ
hex_digit i = get_or hex_digits i 0

unfoldable pub encode_hex : Bytes → Bytes
encode_hex [] = []
encode_hex (b ∷ bytes) = hex_digit (b / 16) ∷ (hex_digit (b % 16) ∷ encode_hex bytes)

-- `hex.to_ascii_lowercase()`
unfoldable pub to_lower : ℕ → ℕ
to_lower c = if leb b'A' c && leb c b'Z' then c + 32 else c

-- The loop over `chunks_exact(2)`.
unfoldable pub decode_pairs : Bytes → Option Bytes
decode_pairs (a ∷ (b ∷ rest)) = do
  hi ← hex_nibble a
  lo ← hex_nibble b
  bytes ← decode_pairs rest
  some ((hi * 16 + lo) ∷ bytes)
decode_pairs _ = some []

unfoldable pub from_hex : Bytes → Result Digest
from_hex hex =
    if length hex == 64
    then elim (decode_pairs hex) [
      | none ↦ err invalid_hash
      | some bytes ↦ ok (record { hex = map to_lower hex; bytes = bytes })
    ]
    else err invalid_hash

unfoldable pub from_bytes : Bytes → Digest
from_bytes bytes = record { hex = encode_hex bytes; bytes = bytes }

module _ (sha256 : Bytes → Bytes) where
  -- `Hash::compute`
  unfoldable pub compute : Bytes → Digest
  compute content = from_bytes (sha256 content)
