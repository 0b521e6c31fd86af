-- ===== src/Codec.antt =====
-- How the bytes of an object are stored: src/codec/compress.rs, src/codec/encrypt.rs and `encode` and
-- `decode` of src/codec/mod.rs. zstd and AES-256-GCM are third-party code, parameters here.
pub mod RoundTrip
use omemfs.Prelude.{
  ℕ, ◌+◌, ◌*◌, min, Bool, true, false, ◌&&◌, List, [], ◌∷◌, ◌++◌, Option, none, some, ltb, leb,
  ◌==◌, if◌then◌else◌, length, take,
}
use omemfs.Prelude.Bytes.{Bytes}
use omemfs.Prelude.Errors.{Error, Result, ok, err, ◌>>=◌, io, invalid_object, auth_tag_mismatch}

abbrev pub magic_dict_zstd : Bytes
magic_dict_zstd = 0xED ∷ 0xDE ∷ []

abbrev pub magic_plain_zstd : Bytes
magic_plain_zstd = 0xED ∷ 0xDF ∷ []

abbrev pub magic_escaped_raw : Bytes
magic_escaped_raw = 0xED ∷ 0xD0 ∷ []

unfoldable pub decompress_max : ℕ
decompress_max = 64 * 1024 * 1024

pub tag_len : ℕ
tag_len = 16

unfoldable pub needs_escape : Bytes → Bool
needs_escape (a ∷ (b ∷ rest)) = (a == 0xED) && (leb 0xD0 b && leb b 0xDF)
needs_escape _ = false

pub raw_stored_len : Bytes → ℕ
raw_stored_len content = if needs_escape content then 2 + length content else length content

pub escape_raw_owned : Bytes → Bytes
escape_raw_owned content = if needs_escape content then magic_escaped_raw ++ content else content

-- The zstd library with the embedded dictionary (`true`) or without it: `compress_zstd_bytes`, and what
-- a stream decodes to, up to its end (`true`) or to where it fails.
pub record Zstd : Type 0 where
  pub zip : Bool → Bytes → Bytes
  pub unzip : Bool → Bytes → Bytes × Bool

-- The AES-256-GCM library: key, nonce and text. `unseal` gives `none` on a tag that does not match.
pub record Cipher : Type 0 where
  pub seal : Bytes → Bytes → Bytes → Bytes
  pub unseal : Bytes → Bytes → Bytes → Option Bytes

module _ (zstd : Zstd) where
  pub compress : Bytes → Bytes
  compress content =
      let dict_payload = zstd.zip true content in
      let dict_total = 2 + length dict_payload in
      let plain_payload = zstd.zip false content in
      let plain_total = 2 + length plain_payload in
      let best = min (min dict_total plain_total) (raw_stored_len content) in
      if best == dict_total
      then magic_dict_zstd ++ dict_payload
      else if best == plain_total
      then magic_plain_zstd ++ plain_payload
      else escape_raw_owned content

  -- The read is capped at one byte past the limit, so that reading it tells a stream that is too long,
  -- and a failure past that byte is not reached.
  pub decompress_zstd_bytes : Bool → Bytes → Result Bytes
  decompress_zstd_bytes dict payload =
      let (whole, ended) = zstd.unzip dict payload in
      let out = take (decompress_max + 1) whole in
      if ltb decompress_max (length out)
      then err invalid_object
      else if ended
      then ok out
      else err io

  pub decompress : Bytes → Result Bytes
  decompress (a ∷ (b ∷ rest)) =
      if (a == 0xED) && (b == 0xDE)
      then decompress_zstd_bytes true rest
      else if (a == 0xED) && (b == 0xDF)
      then decompress_zstd_bytes false rest
      else if (a == 0xED) && (b == 0xD0)
      then ok rest
      else ok (a ∷ (b ∷ rest))
  decompress stored = ok stored

module _ (cipher : Cipher) where
  pub encrypt : Bytes → Option Bytes → Bytes → Bytes
  encrypt content none object_hash = content
  encrypt content (some key) object_hash = cipher.seal key (take 12 object_hash) content

  pub decrypt : Bytes → Option Bytes → Bytes → Result Bytes
  decrypt content none object_hash = ok content
  decrypt content (some key) object_hash =
      if ltb (length content) tag_len
      then err auth_tag_mismatch
      else elim (cipher.unseal key (take 12 object_hash) content) [
        | none ↦ err auth_tag_mismatch
        | some text ↦ ok text
      ]

module _ (zstd : Zstd) (cipher : Cipher) where
  pub encode : Bytes → Option Bytes → Bytes → Bytes
  encode serialised key object_hash = encrypt cipher (compress zstd serialised) key object_hash

  pub decode : Bytes → Option Bytes → Bytes → Result Bytes
  decode stored key object_hash = do
    decrypted ← decrypt cipher stored key object_hash
    decompress zstd decrypted
