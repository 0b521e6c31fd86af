-- ===== src/Chunks/Assembled.antt =====
-- Reading a blob by src/codec/chunk.rs, stored in one object or in chunks.
use omemfs.Prelude.{
  ◌≤◌, ◌≡◌, refl, ap, sym, ◌∙◌, List, [], ◌∷◌, ◌++◌, some, length, All, append-nil, arith,
}
use omemfs.Prelude.Bytes.{Bytes, starts_with}
use omemfs.Prelude.Errors.{ok}
use omemfs.Object.Digest.{Digest}
use omemfs.Object.Tags.{serialise_blob, deserialise_blob, serialise_chunk, serialise_manifest}
use omemfs.Object.Tags.RoundTrip.{
  deserialise-serialise_blob, serialise_blob_kind, deserialise-serialise_chunk,
  deserialise-serialise_manifest, IsDigest,
}
use omemfs.Trees.Store.{Store, store_read}
use omemfs.Chunks.{
  read_chunk, read_chunks, chunks_of, chunk_or_error, serialised_chunks, concat, strip_first,
  blob_chunks, read_blob_bytes,
}

-- Each chunk lies, tagged, under its hash.
abbrev pub Holds : Store → List Digest → List Bytes → Type 0
Holds s [] [] = Unit
Holds s (h ∷ hs) (c ∷ cs) = (s h ≡ some (serialise_chunk c)) × Holds s hs cs
Holds s _ _ = ⊥

read_chunks_lem :
    (s : Store) (hs : List Digest) (cs : List Bytes) → Holds s hs cs → read_chunks s hs ≡ ok cs
unfolding read_chunks read_chunk chunk_or_error store_read
read_chunks_lem s [] [] h = refl
read_chunks_lem s [] (c ∷ cs) h = absurd h
read_chunks_lem s (x ∷ hs) [] h = absurd h
read_chunks_lem s (x ∷ hs) (c ∷ cs) (p, h) =
    rw (p, store_read, deserialise-serialise_chunk c, read_chunks_lem s hs cs h)

-- The escape tag is two bytes, so it lies in a first chunk of two bytes or more.
deserialise_blob-append :
    (c rest : Bytes) → 2 ≤ length c → deserialise_blob (c ++ rest) ≡ deserialise_blob c ++ rest
unfolding deserialise_blob starts_with
deserialise_blob-append [] rest h = absurd (omega arith)
deserialise_blob-append (a ∷ []) rest h = absurd (omega arith)
deserialise_blob-append (a ∷ (b ∷ c)) rest h = ground arith

-- A blob stored as one object reads back as its content.
pub read_blob_bytes_lem :
    (s : Store) (hash : Digest) (content : Bytes)
    → s hash ≡ some (serialise_blob content)
    → read_blob_bytes s hash ≡ ok content
unfolding read_blob_bytes blob_chunks serialised_chunks chunks_of store_read strip_first concat
read_blob_bytes_lem s hash content h = rw (
  h,
  store_read,
  (serialise_blob_kind content).2,
  deserialise-serialise_blob content,
  append-nil content,
)

-- A blob stored as a manifest and its tagged chunks reads back as its content, however its escaped
-- bytes were cut into chunks, where the first chunk has two bytes or more.
pub read_blob_bytes-chunked :
    (s : Store) (hash : Digest) (hs : List Digest) (c : Bytes) (cs : List Bytes) (content : Bytes)
    → All IsDigest hs
    → s hash ≡ some (serialise_manifest hs)
    → Holds s hs (c ∷ cs)
    → 2 ≤ length c
    → serialise_blob content ≡ c ++ concat cs
    → read_blob_bytes s hash ≡ ok content
unfolding read_blob_bytes blob_chunks serialised_chunks chunks_of store_read strip_first concat
read_blob_bytes-chunked s hash hs c cs content d h k n e =
    rw (h, store_read, deserialise-serialise_manifest hs d, read_chunks_lem s hs (c ∷ cs) k)
      (ap (λ (b : Bytes). ok b)
        (sym (deserialise_blob-append c (concat cs) n)
          ∙ ap deserialise_blob (sym e)
          ∙ deserialise-serialise_blob content))
