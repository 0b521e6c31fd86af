-- ===== src/Pack/IndexRoot/RoundTrip.antt =====
-- `serialise` of src/codec/pack/index_root.rs followed by `deserialise`.
use omemfs.Prelude.{
  ℕ, ◌+◌, ◌*◌, ◌^◌, ◌≤◌, ◌<◌, ◌≡◌, refl, List, [], ◌∷◌, ◌++◌, length, drop, length-append,
  take_front, drop_front, append-nil, append_assoc, All, arith,
}
use omemfs.Prelude.Bytes.{Bytes, bytes_eq_refl}
use omemfs.Prelude.Words.{be_bytes, from_be-be_bytes, length-be_bytes}
use omemfs.Prelude.Errors.{ok}
use omemfs.Object.Tags.{chunks_32}
use omemfs.Pack.IndexRoot.{
  IndexRoot, magic, cold_shard_count, all_hashes, counts_bytes, serialise, deserialise,
}

abbrev pub Is32 : Bytes → Type 0
Is32 h = length h ≡ 32

-- The hashes have 32 bytes, there is a shard for each prefix, and the fields fit.
pub record IsWritable (r : IndexRoot) : Type 0 where
  pub remote_root_32 : Is32 r.remote_root
  pub hot_hash_32 : Is32 r.hot_hash
  pub bloom_hash_32 : Is32 r.bloom_hash
  pub delta_hashes_32 : All Is32 r.delta_hashes
  pub cold_shards_32 : All Is32 r.cold_shards
  pub few_bits : r.cold_prefix_bits ≤ 32
  pub few_deltas : length r.delta_hashes < 2 ^ 16
  pub full_shards : length r.cold_shards ≡ 2 ^ r.cold_prefix_bits

length-all_hashes : (hs : List Bytes) → All Is32 hs → length (all_hashes hs) ≡ length hs * 32
unfolding all_hashes
length-all_hashes [] h = omega arith
length-all_hashes (x ∷ hs) (n, h) =
    omega (arith, length-append x (all_hashes hs), length-all_hashes hs h)

chunks_32-all_hashes :
    (hs : List Bytes) (rest : Bytes)
    → All Is32 hs
    → chunks_32 (length hs) (all_hashes hs ++ rest) ≡ hs
unfolding all_hashes chunks_32
chunks_32-all_hashes [] rest h = refl
chunks_32-all_hashes (x ∷ hs) rest (n, h) = rw (
  append_assoc x (all_hashes hs) rest,
  take_front 32 x (all_hashes hs ++ rest) n,
  drop_front 32 x (all_hashes hs ++ rest) n,
  chunks_32-all_hashes hs rest h,
)

chunks_32-shards :
    (n : ℕ) (hs : List Bytes) → length hs ≡ n → All Is32 hs → chunks_32 n (all_hashes hs) ≡ hs
chunks_32-shards n hs e h = rw (append-nil (all_hashes hs), e) at (chunks_32-all_hashes hs [] h)

root_bytes : IndexRoot → Bytes
root_bytes r =
    magic ++ (1 ∷ (0 ∷ (r.remote_root ++ (r.hot_hash ++ (r.bloom_hash ++ counts_bytes r)))))

length-counts_bytes :
    (r : IndexRoot)
    → IsWritable r
    → length (counts_bytes r) ≡ 8 + length r.delta_hashes * 32 + length r.cold_shards * 32
unfolding counts_bytes
length-counts_bytes r w =
    let rest = all_hashes r.delta_hashes ++ all_hashes r.cold_shards in
    omega (
      arith,
      length-append (be_bytes 2 (length r.delta_hashes)) (0 ∷ (0 ∷ rest)),
      length-be_bytes 2 (length r.delta_hashes),
      length-append (all_hashes r.delta_hashes) (all_hashes r.cold_shards),
      length-all_hashes r.delta_hashes w.delta_hashes_32,
      length-all_hashes r.cold_shards w.cold_shards_32,
    )

serialise_bytes : (r : IndexRoot) → IsWritable r → serialise r ≡ ok (root_bytes r)
unfolding serialise cold_shard_count root_bytes
serialise_bytes r w = let full = w.full_shards in let few = w.few_deltas in ground arith

drop_padding : (n : ℕ) (body : Bytes) → drop 4 (be_bytes 2 n ++ (0 ∷ (0 ∷ body))) ≡ body
drop_padding n body =
    let front = be_bytes 2 n ++ (0 ∷ (0 ∷ [])) in
    let size : length front ≡ 4 =
      omega (arith, length-append (be_bytes 2 n) (0 ∷ (0 ∷ [])), length-be_bytes 2 n) in
    rw (append_assoc (be_bytes 2 n) (0 ∷ (0 ∷ [])) body) at (drop_front 4 front body size)

length-root_bytes :
    (r : IndexRoot)
    → IsWritable r
    → length (root_bytes r) ≡ 108 + (length r.delta_hashes * 32 + length r.cold_shards * 32)
unfolding root_bytes
length-root_bytes r w = omega (
  arith,
  length-append r.remote_root (r.hot_hash ++ (r.bloom_hash ++ counts_bytes r)),
  length-append r.hot_hash (r.bloom_hash ++ counts_bytes r),
  length-append r.bloom_hash (counts_bytes r),
  w.remote_root_32,
  w.hot_hash_32,
  w.bloom_hash_32,
  length-counts_bytes r w,
)

deserialise_bytes : (r : IndexRoot) → IsWritable r → deserialise (root_bytes r) ≡ ok r
unfolding deserialise root_bytes counts_bytes
deserialise_bytes r w =
    let n = length r.delta_hashes in
    let deltas = all_hashes r.delta_hashes in
    let shards = all_hashes r.cold_shards in
    let counts = counts_bytes r in
    let size = length-root_bytes r w in
    let tail : length (r.remote_root ++ (r.hot_hash ++ (r.bloom_hash ++ counts_bytes r)))
        ≡ 104 + (length r.delta_hashes * 32 + length r.cold_shards * 32) =
      omega (arith, size) in
    let bits = w.few_bits in
    let full = w.full_shards in
    let small : n < 256 ^ 2 = (let few = w.few_deltas in omega arith) in
    rw
      (
        take_front 32 r.remote_root (r.hot_hash ++ (r.bloom_hash ++ counts)) w.remote_root_32,
        drop_front 32 r.remote_root (r.hot_hash ++ (r.bloom_hash ++ counts)) w.remote_root_32,
        take_front 32 r.hot_hash (r.bloom_hash ++ counts) w.hot_hash_32,
        drop_front 32 r.hot_hash (r.bloom_hash ++ counts) w.hot_hash_32,
        take_front 32 r.bloom_hash counts w.bloom_hash_32,
        drop_front 32 r.bloom_hash counts w.bloom_hash_32,
        take_front 2 (be_bytes 2 n) (0 ∷ (0 ∷ (deltas ++ shards))) (length-be_bytes 2 n),
        drop_padding n (deltas ++ shards),
        from_be-be_bytes 2 n small,
        chunks_32-all_hashes r.delta_hashes shards w.delta_hashes_32,
        drop_front (n * 32) deltas shards (length-all_hashes r.delta_hashes w.delta_hashes_32),
        chunks_32-shards (2 ^ r.cold_prefix_bits) r.cold_shards w.full_shards w.cold_shards_32,
        bytes_eq_refl magic,
      )
      (ground (arith, tail, bits, full))

-- An index root whose hashes have 32 bytes, with at most 32 prefix bits, a shard for each prefix
-- and fewer than 2^16 deltas, is written, and reads back as it was.
pub deserialise_lem :
    (r : IndexRoot)
    → IsWritable r
    → (bytes : Bytes) × (serialise r ≡ ok bytes) × (deserialise bytes ≡ ok r)
deserialise_lem r w = (root_bytes r, serialise_bytes r w, deserialise_bytes r w)
