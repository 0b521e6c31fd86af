-- ===== src/Tests/Objects.antt =====
-- Objects: hashes, tags, names, the order of entries, and the text form of hashes.
use omemfs.Prelude.{◌≡◌, refl, inl, [], ◌∷◌, none, not, true, length, replicate, All, find, arith}
use omemfs.Prelude.Bytes.{Bytes, IsByte, codes, bytes_eq, contains}
use omemfs.Prelude.Errors.{ok, err, invalid_object}
use omemfs.Object.Digest.{Digest, from_bytes, from_hex, decode_pairs, hex_nibble, to_lower}
use omemfs.Object.Digest.Canonical.{from_hex_canonical}
use omemfs.Object.Tags.{serialise_blob, deserialise_blob}
use omemfs.Object.Tags.RoundTrip.{deserialise-serialise_blob}
use omemfs.Object.Names.{validate_entry_name, is_conflict_artifact, ends_with}
use omemfs.Object.Names.Paths.{IsName, path_of, split_path, split_path-path_of, validate-artifact}
use omemfs.Object.Entry.{TreeEntry, symlink, sorted_entries, entry_name}
use omemfs.Object.Entry.Sorting.{DistinctNames, find_name, sorted_entries_canonical}
use omemfs.Base32
use omemfs.Base32.RoundTrip.{decode-encode}
use omemfs.Base32.Refusal.{is_letter, Answers, decode-Answers}

abbrev looks_tagged : Bytes
looks_tagged = 0xED ∷ (0xF1 ∷ [])

deserialise-serialise_blob_example : deserialise_blob (serialise_blob looks_tagged) ≡ looks_tagged
deserialise-serialise_blob_example = deserialise-serialise_blob looks_tagged

-- An upper-case text.
abbrev upper : Bytes
upper = replicate 64 b'A'

abbrev upper_digest : Digest
upper_digest = record { hex = replicate 64 b'a'; bytes = replicate 32 0xAA }

upper-IsByte : All IsByte upper
upper-IsByte = ground arith

upper_read : from_hex upper ≡ ok upper_digest
unfolding from_hex decode_pairs hex_nibble to_lower
upper_read = refl

from_hex_canonical_example :
    (upper_digest ≡ from_bytes upper_digest.bytes)
    × (length upper_digest.bytes ≡ 32)
    × (length upper ≡ 64)
from_hex_canonical_example = from_hex_canonical upper upper_digest upper-IsByte upper_read

a-IsName : IsName (codes "a")
unfolding validate_entry_name bytes_eq contains
a-IsName = refl

b-IsName : IsName (codes "b")
unfolding validate_entry_name bytes_eq contains
b-IsName = refl

split_path-path_of_example :
    split_path (path_of [] (codes "a" ∷ (codes "b" ∷ []))) ≡ codes "a" ∷ (codes "b" ∷ [])
split_path-path_of_example = split_path-path_of (codes "a") (codes "b" ∷ []) a-IsName (b-IsName, tt)

is_artifact : is_conflict_artifact (codes "n.txt.omemfs-conflict-local") ≡ true
unfolding is_conflict_artifact ends_with contains bytes_eq
is_artifact = refl

validate-artifact_example :
    validate_entry_name (codes "n.txt.omemfs-conflict-local") ≡ err invalid_object
validate-artifact_example =
    validate-artifact (codes "n.txt.omemfs-conflict-local") (inl is_artifact)

abbrev link_a : TreeEntry
link_a = symlink (codes "a") (codes "x") none

abbrev link_b : TreeEntry
link_b = symlink (codes "b") (codes "x") none

two-DistinctNames : DistinctNames (link_b ∷ (link_a ∷ []))
unfolding find_name entry_name bytes_eq
two-DistinctNames = (refl, (refl, tt))

swapped-DistinctNames : DistinctNames (link_a ∷ (link_b ∷ []))
unfolding find_name entry_name bytes_eq
swapped-DistinctNames = (refl, (refl, tt))

same_finds :
    (n : Bytes) → find_name n (link_b ∷ (link_a ∷ [])) ≡ find_name n (link_a ∷ (link_b ∷ []))
unfolding find_name entry_name bytes_eq
same_finds [] = refl
same_finds (c ∷ []) = ground arith
same_finds (c ∷ (d ∷ n)) = ground arith

sorted_entries_canonical_example :
    sorted_entries (link_b ∷ (link_a ∷ [])) ≡ sorted_entries (link_a ∷ (link_b ∷ []))
sorted_entries_canonical_example =
    sorted_entries_canonical (link_b ∷ (link_a ∷ [])) (link_a ∷ (link_b ∷ [])) two-DistinctNames
      swapped-DistinctNames same_finds

three_bytes : All IsByte (1 ∷ (2 ∷ (255 ∷ [])))
three_bytes = ground arith

decode-encode_example :
    Base32.decode (Base32.encode (1 ∷ (2 ∷ (255 ∷ [])))) ≡ Base32.ok (1 ∷ (2 ∷ (255 ∷ [])))
decode-encode_example = decode-encode (1 ∷ (2 ∷ (255 ∷ []))) three_bytes

decode-Answers_example :
    Answers (find (λ c. not (is_letter c)) (codes "ab!")) (Base32.decode (codes "ab!"))
decode-Answers_example = decode-Answers (codes "ab!") (ground arith)
