-- ===== src/Pack/Bloom/RoundTrip.antt =====
-- `serialise` of src/codec/pack/bloom.rs followed by `deserialise`.
use omemfs.Prelude.{
  ℕ, ◌+◌, ◌^◌, ◌<◌, ◌≡◌, ◌++◌, length, take, drop, length-append, take-append, drop-append,
  append_assoc, arith,
}
use omemfs.Prelude.Bytes.{Bytes, bytes_eq_refl}
use omemfs.Prelude.Words.{be_bytes, from_be-be_bytes, length-be_bytes}
use omemfs.Prelude.Errors.{ok}
use omemfs.Pack.Bloom.{BloomFilter, bytes_for, magic, from_parts, serialise, deserialise}

-- The fields are words of their widths, and the array has the bytes for its bits.
pub record IsWellFormed (f : BloomFilter) : Type 0 where
  pub num_bits_u64 : f.num_bits < 2 ^ 64
  pub element_count_u64 : f.element_count < 2 ^ 64
  pub enough_bits : length f.bits ≡ bytes_for f.num_bits

-- `deserialise` on the bytes of a header and of a bit array.
take_word : (v : ℕ) (rest : Bytes) → take 8 (be_bytes 8 v ++ rest) ≡ be_bytes 8 v
take_word v rest = rw (length-be_bytes 8 v) at (take-append (be_bytes 8 v) rest)

drop_word : (v : ℕ) (rest : Bytes) → drop 8 (be_bytes 8 v ++ rest) ≡ rest
drop_word v rest = rw (length-be_bytes 8 v) at (drop-append (be_bytes 8 v) rest)

drop_words : (v w : ℕ) (rest : Bytes) → drop 16 (be_bytes 8 v ++ (be_bytes 8 w ++ rest)) ≡ rest
drop_words v w rest =
    let front = be_bytes 8 v ++ be_bytes 8 w in
    let n : length front ≡ 16 = omega (
      arith,
      length-append (be_bytes 8 v) (be_bytes 8 w),
      length-be_bytes 8 v,
      length-be_bytes 8 w,
    ) in
    rw (← append_assoc (be_bytes 8 v) (be_bytes 8 w) rest) (rw n at (drop-append front rest))

length-words :
    (v w : ℕ) (rest : Bytes) → length (be_bytes 8 v ++ (be_bytes 8 w ++ rest)) ≡ 16 + length rest
length-words v w rest = omega (
  arith,
  length-append (be_bytes 8 v) (be_bytes 8 w ++ rest),
  length-append (be_bytes 8 w) rest,
  length-be_bytes 8 v,
  length-be_bytes 8 w,
)

-- A filter whose fields fit their words reads back from its bytes.
pub deserialise-serialise : (f : BloomFilter) → IsWellFormed f → deserialise (serialise f) ≡ ok f
unfolding deserialise serialise from_parts
deserialise-serialise f w =
    let rest = be_bytes 8 f.element_count ++ f.bits in
    rw
      (
        take_word f.num_bits rest,
        drop_word f.num_bits rest,
        take_word f.element_count f.bits,
        from_be-be_bytes 8 f.num_bits (omega arith),
        from_be-be_bytes 8 f.element_count (omega arith),
        drop_words f.num_bits f.element_count f.bits,
        bytes_eq_refl magic,
      )
      (ground (arith, length-words f.num_bits f.element_count f.bits))
