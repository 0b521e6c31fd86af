-- ===== src/Tests/Roots.antt =====
-- A root with two deltas and the shards of one bit.
use omemfs.Prelude.{◌≡◌, refl, [], ◌∷◌, replicate, arith}
use omemfs.Prelude.Bytes.{Bytes}
use omemfs.Prelude.Errors.{ok}
use omemfs.Pack.IndexRoot.{IndexRoot, zero_hash, serialise, deserialise}
use omemfs.Pack.IndexRoot.RoundTrip.{IsWritable, deserialise_lem}

abbrev small_root : IndexRoot
small_root = record {
  remote_root = replicate 32 1;
  hot_hash = zero_hash;
  bloom_hash = replicate 32 2;
  cold_prefix_bits = 1;
  delta_hashes = replicate 32 3 ∷ (replicate 32 4 ∷ []);
  cold_shards = zero_hash ∷ (replicate 32 5 ∷ []);
}

small_root-IsWritable : IsWritable small_root
small_root-IsWritable = record {
  remote_root_32 = refl;
  hot_hash_32 = refl;
  bloom_hash_32 = refl;
  delta_hashes_32 = (refl, (refl, tt));
  cold_shards_32 = (refl, (refl, tt));
  few_bits = omega arith;
  few_deltas = omega arith;
  full_shards = refl;
}

deserialise_lem_example :
    (bytes : Bytes) × (serialise small_root ≡ ok bytes) × (deserialise bytes ≡ ok small_root)
deserialise_lem_example = deserialise_lem small_root small_root-IsWritable
