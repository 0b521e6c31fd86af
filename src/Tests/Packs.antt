-- ===== src/Tests/Packs.antt =====
-- Packs: their filters, indexes and the pointer to them; and the storage of objects.
use omemfs.Prelude.{
  ℕ, ◌*◌, ◌/◌, ◌≤◌, ◌≡◌, refl, ◌≢◌, ◌⊎◌, List, [], ◌∷◌, ◌++◌, some, if◌then◌else◌, true, replicate,
  drop, All, arith,
}
use omemfs.Prelude.Bytes.{Bytes, codes, bytes_lt}
use omemfs.Prelude.Errors.{ok, err, cas_failed}
use omemfs.Object.Digest.{Digest, digest_eq, digest_lt, from_bytes, encode_hex, hex_digit}
use omemfs.Object.Digest.Canonical.{IsHash}
use omemfs.Codec.{decompress_max, Zstd, Cipher, encode, decode}
use omemfs.Codec.RoundTrip.{IsLossless, IsAuthentic, encode_lem}
use omemfs.Pack.Bloom.{
  BloomFilter, capacity_for, min_capacity, max_capacity, ladder_ceil, ladder_loop, ladder_step,
  clamp, ladder_candidate, serialise, deserialise, bytes_for,
}
use omemfs.Pack.Bloom.Membership.{IsUsable, AllPresent, insert_all, insert_all-AllPresent}
use omemfs.Pack.Bloom.RoundTrip.{IsWellFormed, deserialise-serialise}
use omemfs.Pack.Bloom.Sizing.{capacity_for_bounds}
use omemfs.Pack.Index.{IndexEntry, inline, pack, standalone, push, find_hash, is_sorted, above}
use omemfs.Pack.Index as Index
use omemfs.Pack.Index.Lookup.{find_hash-push, push_sorted}
use omemfs.Pack.Index.RoundTrip.{Fits, serialise_lem}
use omemfs.Pack.RootPointer.{read, cas_write}
use omemfs.Pack.RootPointer.Swap.{cas_write_lem}

-- A compressor that only marks its output, and a cipher that adds a tag of the key's first byte.
abbrev marking : Zstd
marking = record { zip = λ dict content. content; unzip = λ dict content. (content, true) }

abbrev tag : Bytes
tag = replicate 16 9

abbrev tagging : Cipher
tagging = record {
  seal = λ key nonce text. tag ++ text;
  unseal = λ key nonce text. some (drop 16 text);
}

marking-IsLossless : IsLossless marking
marking-IsLossless dict content = refl

tagging-IsAuthentic : IsAuthentic tagging
tagging-IsAuthentic = record {
  opens = λ key nonce text. refl;
  tagged = λ key nonce text. omega (arith);
}

encode_lem_example :
    decode marking tagging
      (encode marking tagging (0xED ∷ (0xD3 ∷ [])) (some (codes "key")) (replicate 32 1))
      (some (codes "key"))
      (replicate 32 1)
    ≡ ok (0xED ∷ (0xD3 ∷ []))
unfolding decompress_max
encode_lem_example =
    encode_lem marking tagging marking-IsLossless tagging-IsAuthentic (0xED ∷ (0xD3 ∷ []))
      (some (codes "key")) (replicate 32 1) (omega arith)

abbrev low : Digest
low = from_bytes (replicate 32 1)

abbrev high : Digest
high = from_bytes (replicate 32 200)

abbrev small_index : List IndexEntry
small_index = standalone low ∷ (pack high low 16 4 ∷ [])

abbrev entry : IndexEntry
entry = inline low (7 ∷ (8 ∷ []))

low-IsHash : IsHash low
unfolding from_bytes
low-IsHash = (refl, refl, ground arith)

high-IsHash : IsHash high
unfolding from_bytes
high-IsHash = (refl, refl, ground arith)

find_hash-push_example :
    find_hash high (push entry small_index)
    ≡ (if digest_eq low high then some entry else find_hash high small_index)
find_hash-push_example =
    find_hash-push high entry small_index high-IsHash low-IsHash (low-IsHash, (high-IsHash, tt))

small_index-sorted : is_sorted small_index ≡ true
unfolding is_sorted above digest_lt bytes_lt from_bytes encode_hex hex_digit
small_index-sorted = refl

push_sorted_example : is_sorted (push entry small_index) ≡ true
push_sorted_example =
    push_sorted entry small_index low-IsHash (low-IsHash, (high-IsHash, tt)) small_index-sorted

small_index-Fits : All Fits small_index
unfolding from_bytes
small_index-Fits = ((refl, refl), (((refl, refl), (refl, refl), omega arith, omega arith), tt))

serialise_lem_example :
    (bytes : Bytes) × (Index.serialise small_index ≡ ok bytes)
    × (Index.deserialise bytes ≡ ok small_index)
serialise_lem_example = serialise_lem small_index small_index-Fits small_index-sorted (omega arith)

cas_write_lem_example :
    ((some (codes "a") ≡ some (codes "a"))
      → cas_write (read (some (codes "a"))).1 (codes "b") (some (codes "a"))
        ≡ (ok tt, some (codes "b")))
    × ((some (codes "a") ≢ some (codes "a"))
        → cas_write (read (some (codes "a"))).1 (codes "b") (some (codes "a"))
          ≡ (err cas_failed, some (codes "a")))
cas_write_lem_example = cas_write_lem (some (codes "a")) (some (codes "a")) (codes "b")

abbrev filter_two : BloomFilter
filter_two = record {
  num_hash_functions = 3;
  num_bits = 20;
  element_count = 0;
  bits = 0 ∷ (0 ∷ (0 ∷ []));
}

filter_two-IsUsable : IsUsable filter_two
unfolding bytes_for
filter_two-IsUsable = ((omega arith, (omega arith, (omega arith, tt))), refl)

insert_all-AllPresent_example :
    (g : BloomFilter) × (insert_all filter_two (low ∷ (high ∷ [])) ≡ some g)
    × AllPresent g (low ∷ (high ∷ []))
insert_all-AllPresent_example =
    insert_all-AllPresent filter_two (low ∷ (high ∷ [])) filter_two-IsUsable (omega arith)

filter_two-IsWellFormed : IsWellFormed filter_two
unfolding bytes_for
filter_two-IsWellFormed = record {
  num_bits_u64 = omega arith;
  element_count_u64 = omega arith;
  enough_bits = refl;
}

deserialise-serialise_example : deserialise (serialise filter_two) ≡ ok filter_two
deserialise-serialise_example = deserialise-serialise filter_two filter_two-IsWellFormed

capacity_for_bounds_example :
    (c : ℕ) × (capacity_for 300000 ≡ some c)
    × (min_capacity ≤ c)
    × (c ≤ max_capacity)
    × ((300000 * 3 / 2 ≤ c) ⊎ (c ≡ max_capacity))
capacity_for_bounds_example = capacity_for_bounds 300000

capacity_small : capacity_for 10 ≡ some 100000
unfolding capacity_for clamp ladder_ceil ladder_loop ladder_step ladder_candidate
capacity_small = refl

capacity_large : capacity_for 300000 ≡ some 500000
unfolding capacity_for clamp ladder_ceil ladder_loop ladder_step ladder_candidate
capacity_large = refl
