-- ===== src/Chunks.antt =====
-- Reading blobs that may be stored in chunks: `for_each_serialised_chunk`, `load_assembled` and
-- `for_each_blob_chunk` of src/codec/chunk.rs, on a store of decoded objects. The sink is a list of
-- what it is given.
pub mod Assembled
use omemfs.Prelude.{ℕ, zero, suc, Bool, true, false, List, [], ◌∷◌, ◌++◌, Option, none, some}
use omemfs.Prelude.Bytes.{Bytes}
use omemfs.Prelude.Errors.{Error, Result, ok, err, ◌>>=◌, invalid_object}
use omemfs.Object.Digest.{Digest}
use omemfs.Object.Tags.{deserialise_blob, deserialise_chunk, deserialise_manifest}
use omemfs.Trees.Store.{Store, store_read}

-- `deserialise_chunk(..).ok_or_else(..)?`
unfoldable pub chunk_or_error : Option Bytes → Result Bytes
chunk_or_error none = err invalid_object
chunk_or_error (some c) = ok c

unfoldable pub read_chunk : Store → Digest → Result Bytes
unfolding chunk_or_error
read_chunk s chunk_hash = do
  chunk_tagged ← store_read s chunk_hash
  chunk_or_error (deserialise_chunk chunk_tagged)

unfoldable pub read_chunks : Store → List Digest → Result (List Bytes)
read_chunks s [] = ok []
read_chunks s (h ∷ hs) = do c ← read_chunk s h; cs ← read_chunks s hs; ok (c ∷ cs)

unfoldable pub chunks_of : Store → Bytes → Option (List Digest) → Result (List Bytes)
chunks_of s raw none = ok (raw ∷ [])
chunks_of s raw (some hashes) = read_chunks s hashes

-- `for_each_serialised_chunk`
unfoldable pub serialised_chunks : Store → Digest → Result (List Bytes)
unfolding chunks_of
serialised_chunks s logical_hash = do
  raw ← store_read s logical_hash
  chunks_of s raw (deserialise_manifest raw)

unfoldable pub concat : List Bytes → Bytes
concat [] = []
concat (c ∷ cs) = c ++ concat cs

unfoldable pub load_assembled : Store → Digest → Result Bytes
load_assembled s logical_hash = do cs ← serialised_chunks s logical_hash; ok (concat cs)

-- The escape is stripped from the first chunk only.
unfoldable pub strip_first : List Bytes → List Bytes
strip_first [] = []
strip_first (c ∷ cs) = deserialise_blob c ∷ cs

-- `for_each_blob_chunk`
unfoldable pub blob_chunks : Store → Digest → Result (List Bytes)
unfolding strip_first
blob_chunks s logical_hash = do cs ← serialised_chunks s logical_hash; ok (strip_first cs)

-- `read_blob_bytes` of src/commands/pull.rs
unfoldable pub read_blob_bytes : Store → Digest → Result Bytes
read_blob_bytes s hash = do cs ← blob_chunks s hash; ok (concat cs)
