-- ===== src/Pack/IndexRoot.antt =====
-- src/codec/pack/index_root.rs: the root of a remote's indexes.
pub mod RoundTrip
use omemfs.Prelude.{
  ℕ, ◌+◌, ◌-◌, ◌*◌, ◌^◌, Bool, true, false, not, List, [], ◌∷◌, ◌++◌, Option, none, some, ltb, ◌==◌,
  if◌then◌else◌, get_elem?, get_or, length, take, drop, map, replicate,
}
use omemfs.Prelude.Bytes.{Bytes, bytes_eq}
use omemfs.Prelude.Words.{be_bytes, from_be}
use omemfs.Prelude.Options.{◌>>=◌}
use omemfs.Prelude.Errors.{Error, Result, ok, err, invalid_object, other}
use omemfs.Object.Digest.{Digest, from_bytes}
use omemfs.Object.Tags.{chunks_32}

pub record IndexRoot : Type 0 where
  pub remote_root : Bytes
  pub hot_hash : Bytes
  pub bloom_hash : Bytes
  pub cold_prefix_bits : ℕ
  pub delta_hashes : List Bytes
  pub cold_shards : List Bytes

abbrev pub magic : Bytes
magic = 0xED ∷ 0xE3 ∷ []

abbrev pub version : ℕ
version = 1

abbrev pub fixed_header_len : ℕ
fixed_header_len = 108

abbrev pub max_cold_prefix_bits : ℕ
max_cold_prefix_bits = 32

abbrev pub zero_hash : Bytes
zero_hash = replicate 32 0

unfoldable pub new_empty : IndexRoot
new_empty = record {
  remote_root = zero_hash;
  hot_hash = zero_hash;
  bloom_hash = zero_hash;
  cold_prefix_bits = 0;
  delta_hashes = [];
  cold_shards = zero_hash ∷ [];
}

-- `1usize << cold_prefix_bits`; the shift is out of range from 64 bits on.
unfoldable pub cold_shard_count : IndexRoot → ℕ
cold_shard_count r = 2 ^ r.cold_prefix_bits

unfoldable pub all_hashes : List Bytes → Bytes
all_hashes [] = []
all_hashes (h ∷ hs) = h ++ all_hashes hs

-- What follows the three hashes of the header.
unfoldable pub counts_bytes : IndexRoot → Bytes
unfolding all_hashes
counts_bytes r =
    r.cold_prefix_bits
    ∷ (0
        ∷ (0
            ∷ (0
                ∷ (be_bytes 2 (length r.delta_hashes)
                    ++ (0 ∷ (0 ∷ (all_hashes r.delta_hashes ++ all_hashes r.cold_shards)))))))

unfoldable pub serialise : IndexRoot → Result Bytes
serialise r =
    if not (length r.cold_shards == cold_shard_count r)
    then err other
    else if ltb (2 ^ 16 - 1) (length r.delta_hashes)
    then err other
    else ok (
        magic
        ++ (version ∷ (0 ∷ (r.remote_root ++ (r.hot_hash ++ (r.bloom_hash ++ counts_bytes r))))))

unfoldable pub deserialise : Bytes → Result IndexRoot
deserialise input =
    let counts = drop 32 (drop 32 (drop 32 (drop 4 input))) in
    let cold_prefix_bits = get_or counts 0 0 in
    let delta_count = from_be (take 2 (drop 4 counts)) in
    let body = drop 4 (drop 4 counts) in
    let cold_shard_count = 2 ^ cold_prefix_bits in
    let needed = delta_count * 32 + cold_shard_count * 32 in
    if ltb (length input) fixed_header_len
    then err invalid_object
    else if not (bytes_eq (take 2 input) magic)
    then err invalid_object
    else if not (get_or input 2 0 == version)
    then err invalid_object
    else if ltb max_cold_prefix_bits cold_prefix_bits
    then err invalid_object
    else if ltb (length input) (fixed_header_len + needed)
    then err invalid_object
    else ok (record {
      remote_root = take 32 (drop 4 input);
      hot_hash = take 32 (drop 32 (drop 4 input));
      bloom_hash = take 32 (drop 32 (drop 32 (drop 4 input)));
      cold_prefix_bits = cold_prefix_bits;
      delta_hashes = chunks_32 delta_count body;
      cold_shards = chunks_32 cold_shard_count (drop (delta_count * 32) body);
    })

-- A hash of zeros stands for none.
unfoldable pub hash_opt : Bytes → Option Digest
hash_opt h = if bytes_eq h zero_hash then none else some (from_bytes h)

unfoldable pub delta_hashes_as_hashes : IndexRoot → List Digest
delta_hashes_as_hashes r = map from_bytes r.delta_hashes

unfoldable pub cold_shard_hash : IndexRoot → ℕ → Option Digest
unfolding hash_opt
cold_shard_hash r prefix = do h ← get_elem? r.cold_shards prefix; hash_opt h
