-- ===== src/Tests/Trees.antt =====
-- Trees: reading, building, splicing, and reading chunked blobs.
use omemfs.Prelude.{◌≡◌, refl, [], ◌∷◌, none, some, if◌then◌else◌, arith, ◌++◌, replicate, All}
use omemfs.Prelude.Bytes.{Bytes, codes, bytes_eq, contains, starts_with}
use omemfs.Prelude.Errors.{ok}
use omemfs.Object.Digest.{Digest, digest_eq, from_bytes, compute, encode_hex, hex_digit}
use omemfs.Object.Entry.{TreeEntry, blob, symlink, entry_name, sorted_entries}
use omemfs.Object.Names.{validate_entry_name}
use omemfs.Object.Tags.{serialise_blob, serialise_chunk, blob_needs_escape, serialise_manifest}
use omemfs.Trees.Store.{Store, store_read}
use omemfs.Trees.Read.{hash_of, read_tree, deserialise_tree, validate_names, parse_json}
use omemfs.Trees.Change.{build_and_store, splice_entry, child_of}
use omemfs.Trees.Change.Stored.{
  digest_eq_iff, IsAddressed, Keeps, Valid, read_tree_sound, read_tree-build_and_store,
}
use omemfs.Trees.Change.Splice.{Changed, splice_entry_lem}
use omemfs.Chunks.{read_blob_bytes, concat}
use omemfs.Chunks.Assembled.{Holds, read_blob_bytes-chunked}
use omemfs.Object.Tags.RoundTrip.{IsDigest}
use omemfs.Object.Entry.Sorting.{find_name}
use omemfs.Tests.Json.{identity, to_json, from_json, faithful}

abbrev pub empty_store : Store
empty_store h = none

abbrev pub some_hash : Digest
some_hash = from_bytes (1 ∷ [])

abbrev pub note : TreeEntry
note = blob (codes "b") some_hash none 4 none

abbrev pub link : TreeEntry
link = symlink (codes "a") (codes "b") (some 7)

empty_store-IsAddressed : IsAddressed identity empty_store
empty_store-IsAddressed h b e = cc

pub note_name : validate_entry_name (codes "b") ≡ ok tt
unfolding validate_entry_name bytes_eq contains
note_name = refl

dir_name : validate_entry_name (codes "d") ≡ ok tt
unfolding validate_entry_name bytes_eq contains
dir_name = refl

pub link_name : validate_entry_name (codes "a") ≡ ok tt
unfolding validate_entry_name bytes_eq contains
link_name = refl

pub note-Valid : Valid (note ∷ [])
unfolding validate_names entry_name
note-Valid = rw note_name refl

both-Valid : Valid (note ∷ (link ∷ []))
unfolding validate_names entry_name
both-Valid = rw (note_name, link_name) refl

read_tree-build_and_store_example :
    (h : Digest) × (t : Store) × (build_and_store identity to_json from_json
        (note ∷ (link ∷ []))
        empty_store
      ≡ (ok h, t))
    × (read_tree identity from_json t h ≡ ok (sorted_entries (note ∷ (link ∷ []))))
    × IsAddressed identity t
    × Keeps empty_store t
read_tree-build_and_store_example =
    read_tree-build_and_store faithful (note ∷ (link ∷ [])) empty_store empty_store-IsAddressed
      both-Valid

splice_entry_lem_example :
    (h : Digest) × (t : Store) × (splice_entry identity to_json from_json none
        (codes "d")
        (codes "b" ∷ [])
        note
        empty_store
      ≡ (ok h, t))
    × Changed faithful empty_store (codes "d") (codes "b" ∷ []) note h t
unfolding entry_name child_of hash_of find_name
splice_entry_lem_example =
    splice_entry_lem faithful empty_store none (codes "d") (codes "b" ∷ []) note
      empty_store-IsAddressed (dir_name, note_name) refl ([], refl, ([], refl))

-- A store of one tree, under its hash.
abbrev pub tree_bytes : Bytes
tree_bytes = 0xED ∷ (0xF1 ∷ to_json (note ∷ []))

abbrev pub one_tree : Store
one_tree h = if digest_eq (compute identity tree_bytes) h then some tree_bytes else none

pub one_tree_read :
    read_tree identity from_json one_tree (compute identity tree_bytes) ≡ ok (note ∷ [])
unfolding read_tree store_read deserialise_tree starts_with
one_tree_read =
    let h = compute identity tree_bytes in
    rw ((digest_eq_iff h h).1, store_read, parse_json, faithful.parses (note ∷ []), note-Valid)
      (rw ((digest_eq_iff h h).1) refl)

read_tree_sound_example :
    (b : Bytes) × (one_tree (compute identity tree_bytes) ≡ some b)
    × (compute identity b ≡ compute identity tree_bytes)
    × (deserialise_tree from_json b ≡ ok (note ∷ []))
    × Valid (note ∷ [])
read_tree_sound_example =
    read_tree_sound identity from_json one_tree (compute identity tree_bytes) (note ∷ [])
      one_tree_read

-- A blob in one object, and one in two chunks whose content begins like a tag.
abbrev first_hash : Digest
first_hash = from_bytes (replicate 32 1)

abbrev second_hash : Digest
second_hash = from_bytes (replicate 32 2)

abbrev manifest_hash : Digest
manifest_hash = from_bytes (replicate 32 3)

abbrev tagged_content : Bytes
tagged_content = 0xED ∷ (0xF1 ∷ (5 ∷ []))

abbrev one_blob : Store
one_blob h = some (serialise_blob tagged_content)

abbrev chunked_blob : Store
chunked_blob h =
    if digest_eq first_hash h
    then some (serialise_chunk (0xED ∷ (0xF0 ∷ (0xED ∷ []))))
    else if digest_eq second_hash h
    then some (serialise_chunk (0xF1 ∷ (5 ∷ [])))
    else some (serialise_manifest (first_hash ∷ (second_hash ∷ [])))

chunks-Holds :
    Holds chunked_blob
      (first_hash ∷ (second_hash ∷ []))
      ((0xED ∷ (0xF0 ∷ (0xED ∷ []))) ∷ ((0xF1 ∷ (5 ∷ [])) ∷ []))
unfolding digest_eq from_bytes bytes_eq encode_hex hex_digit
chunks-Holds = (refl, (refl, tt))

manifest_stored :
    chunked_blob manifest_hash ≡ some (serialise_manifest (first_hash ∷ (second_hash ∷ [])))
unfolding digest_eq from_bytes bytes_eq encode_hex hex_digit
manifest_stored = refl

chunk_digests : All IsDigest (first_hash ∷ (second_hash ∷ []))
unfolding from_bytes
chunk_digests = ((refl, refl), ((refl, refl), tt))

escaped :
    serialise_blob tagged_content ≡ (0xED ∷ (0xF0 ∷ (0xED ∷ []))) ++ concat ((0xF1 ∷ (5 ∷ [])) ∷ [])
unfolding serialise_blob blob_needs_escape concat
escaped = refl

read_blob_bytes-chunked_example : read_blob_bytes chunked_blob manifest_hash ≡ ok tagged_content
read_blob_bytes-chunked_example =
    read_blob_bytes-chunked chunked_blob manifest_hash (first_hash ∷ (second_hash ∷ []))
      (0xED ∷ (0xF0 ∷ (0xED ∷ []))) ((0xF1 ∷ (5 ∷ [])) ∷ []) tagged_content chunk_digests
      manifest_stored chunks-Holds (omega arith) escaped
