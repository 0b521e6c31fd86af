-- ===== src/Object/Tags.antt =====
-- The object bytes of src/object.rs: type tags, and how blobs, chunks and manifests are written.
pub mod RoundTrip
use omemfs.Prelude.{
  ℕ, zero, suc, ◌%◌, ◌/◌, Bool, true, false, ◌&&◌, List, [], ◌∷◌, ◌++◌, Option, none, some, leb,
  ◌==◌, if◌then◌else◌, get_elem?, length, take, drop, map,
}
use omemfs.Prelude.Bytes.{Bytes, strip_prefix, starts_with}
use omemfs.Object.Digest.{Digest, from_bytes, compute}

abbrev pub type_tag_blob : Bytes
type_tag_blob = 0xED ∷ 0xF0 ∷ []

abbrev pub type_tag_tree : Bytes
type_tag_tree = 0xED ∷ 0xF1 ∷ []

abbrev pub type_tag_manifest : Bytes
type_tag_manifest = 0xED ∷ 0xF2 ∷ []

abbrev pub type_tag_chunk : Bytes
type_tag_chunk = 0xED ∷ 0xF3 ∷ []

-- `opt == Some(b)` and `opt.is_some_and(|b| b >= low)`
abbrev is_byte : ℕ → Option ℕ → Bool
is_byte b none = false
is_byte b (some c) = c == b

abbrev is_at_least : ℕ → Option ℕ → Bool
is_at_least low none = false
is_at_least low (some c) = leb low c

unfoldable pub blob_needs_escape : Option ℕ → Option ℕ → Bool
blob_needs_escape first second = is_byte 0xED first && is_at_least 0xF0 second

unfoldable pub serialise_blob : Bytes → Bytes
unfolding blob_needs_escape
serialise_blob content =
    if blob_needs_escape (get_elem? content 0) (get_elem? content 1)
    then type_tag_blob ++ content
    else content

unfoldable pub deserialise_blob : Bytes → Bytes
unfolding starts_with
deserialise_blob stored = if starts_with stored type_tag_blob then drop 2 stored else stored

unfoldable pub serialise_chunk : Bytes → Bytes
serialise_chunk chunk_bytes = type_tag_chunk ++ chunk_bytes

unfoldable pub deserialise_chunk : Bytes → Option Bytes
unfolding starts_with
deserialise_chunk stored = if starts_with stored type_tag_chunk then some (drop 2 stored) else none

unfoldable pub concat_hashes : List Digest → Bytes
concat_hashes [] = []
concat_hashes (h ∷ hs) = h.bytes ++ concat_hashes hs

unfoldable pub serialise_manifest : List Digest → Bytes
unfolding concat_hashes
serialise_manifest chunk_hashes = type_tag_manifest ++ concat_hashes chunk_hashes

-- `chunks_exact(32)`, one round for each chunk.
unfoldable pub chunks_32 : ℕ → Bytes → List Bytes
chunks_32 zero payload = []
chunks_32 (suc rounds) payload = take 32 payload ∷ chunks_32 rounds (drop 32 payload)

unfoldable pub deserialise_manifest : Bytes → Option (List Digest)
unfolding starts_with
deserialise_manifest stored =
    let payload = drop 2 stored in
    if starts_with stored type_tag_manifest
    then (if length payload % 32 == 0
        then some (map from_bytes (chunks_32 (length payload / 32) payload))
        else none)
    else none

-- `Tree::is_tree_bytes`
unfoldable pub is_tree_bytes : Bytes → Bool
unfolding starts_with
is_tree_bytes stored = starts_with stored type_tag_tree

module _ (sha256 : Bytes → Bytes) where
  pub chunk_hash : Bytes → Digest
  chunk_hash chunk_bytes = compute sha256 (type_tag_chunk ++ chunk_bytes)

  pub blob_hash : Bytes → Digest
  blob_hash content = compute sha256 (type_tag_blob ++ content)
