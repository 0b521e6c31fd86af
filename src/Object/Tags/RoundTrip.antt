-- ===== src/Object/Tags/RoundTrip.antt =====
-- Writing and reading the tagged bytes of src/object.rs.
use omemfs.Prelude.{
  ◌*◌, ◌/◌, ◌%◌, ◌≡◌, refl, false, List, [], ◌∷◌, ◌++◌, none, some, length, take, drop, map, All,
  take-append, drop-append, length-append, arith,
}
use omemfs.Prelude.Bytes.{Bytes}
use omemfs.Object.Digest.{Digest, from_bytes}
use omemfs.Object.Tags.{
  serialise_blob, deserialise_blob, serialise_chunk, deserialise_chunk, concat_hashes,
  serialise_manifest, chunks_32, deserialise_manifest, is_tree_bytes,
}

-- A stored blob reads back as its content, whatever the content begins with.
pub deserialise-serialise_blob :
    (content : Bytes) → deserialise_blob (serialise_blob content) ≡ content
unfolding deserialise_blob serialise_blob
deserialise-serialise_blob [] = refl
deserialise-serialise_blob (a ∷ []) = ground arith
deserialise-serialise_blob (a ∷ (b ∷ rest)) = ground arith

-- No stored blob is taken for a tree, a chunk or a manifest.
pub serialise_blob_kind :
    (content : Bytes)
    → (is_tree_bytes (serialise_blob content) ≡ false)
      × (deserialise_chunk (serialise_blob content) ≡ none)
      × (deserialise_manifest (serialise_blob content) ≡ none)
unfolding is_tree_bytes deserialise_chunk deserialise_manifest serialise_blob
serialise_blob_kind [] = (refl, refl, refl)
serialise_blob_kind (a ∷ []) = ground arith
serialise_blob_kind (a ∷ (b ∷ rest)) = ground arith

pub deserialise-serialise_chunk : (c : Bytes) → deserialise_chunk (serialise_chunk c) ≡ some c
unfolding deserialise_chunk serialise_chunk
deserialise-serialise_chunk c = refl

-- The digest that `from_bytes` makes, over 32 bytes.
abbrev pub IsDigest : Digest → Type 0
IsDigest d = (d ≡ from_bytes d.bytes) × (length d.bytes ≡ 32)

length-concat_hashes :
    (hs : List Digest) → All IsDigest hs → length (concat_hashes hs) ≡ 32 * length hs
unfolding concat_hashes
length-concat_hashes [] h = omega arith
length-concat_hashes (d ∷ hs) (k, h) =
    omega (arith, length-append d.bytes (concat_hashes hs), k.1, length-concat_hashes hs h)

chunks-concat_hashes :
    (hs : List Digest)
    → All IsDigest hs
    → map from_bytes (chunks_32 (length hs) (concat_hashes hs)) ≡ hs
unfolding concat_hashes chunks_32
chunks-concat_hashes [] h = refl
chunks-concat_hashes (d ∷ hs) (k, h) =
    let front : take 32 (d.bytes ++ concat_hashes hs) ≡ d.bytes =
      rw (k.1) at (take-append d.bytes (concat_hashes hs)) in
    let back : drop 32 (d.bytes ++ concat_hashes hs) ≡ concat_hashes hs =
      rw (k.1) at (drop-append d.bytes (concat_hashes hs)) in
    rw (front, back, chunks-concat_hashes hs h, ← k.0)

-- A manifest of hashes made from 32 bytes reads back as its list of hashes.
pub deserialise-serialise_manifest :
    (hs : List Digest) → All IsDigest hs → deserialise_manifest (serialise_manifest hs) ≡ some hs
unfolding deserialise_manifest serialise_manifest
deserialise-serialise_manifest hs h =
    let size = length-concat_hashes hs h in
    let whole : length (concat_hashes hs) % 32 ≡ 0 = omega arith in
    let count : length (concat_hashes hs) / 32 ≡ length hs = omega arith in
    rw (whole, count, chunks-concat_hashes hs h)
