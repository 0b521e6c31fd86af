-- ===== src/Pack/Index.antt =====
-- src/codec/pack/index.rs: the index of the objects in packs, its lookups and its bytes.
pub mod Lookup
pub mod RoundTrip
use omemfs.Prelude.{
  ℕ, zero, suc, ◌+◌, ◌-◌, ◌/◌, ◌%◌, ◌^◌, Bool, true, false, not, ◌&&◌, List, [], ◌∷◌, ◌++◌, Option,
  none, some, ltb, leb, ◌==◌, if◌then◌else◌, get_elem?, get_or, set, length, take, drop,
}
use omemfs.Prelude.Bytes.{Bytes, bytes_eq, bytes_lt}
use omemfs.Prelude.Words.{be_bytes, from_be}
use omemfs.Prelude.Errors.{Error, Result, ok, err, ◌>>=◌, invalid_object, other}
use omemfs.Object.Digest.{Digest, digest_eq, digest_lt, from_bytes}

pub data IndexEntry : Type 0 where
  inline : (hash : Digest) (content : Bytes) → IndexEntry
  pack : (hash pack_hash : Digest) (offset size : ℕ) → IndexEntry
  standalone : (hash : Digest) → IndexEntry

abbrev pub hash_of : IndexEntry → Digest
hash_of (inline hash content) = hash
hash_of (pack hash pack_hash offset size) = hash
hash_of (standalone hash) = hash

-- `partition_point(|e| e.hash() < hash)`: the entries of an index are sorted, so the first one that
-- is not below the hash is the one that the binary search finds.
pub partition_point : Digest → List IndexEntry → ℕ
partition_point hash [] = 0
partition_point hash (e ∷ es) =
    let rest = partition_point hash es in if digest_lt (hash_of e) hash then suc rest else 0

-- Whether the entry at a position, if there is one, has this hash.
abbrev pub matches : Digest → Option IndexEntry → Bool
matches hash none = false
matches hash (some e) = digest_eq (hash_of e) hash

-- `IndexFile::push`
pub push : IndexEntry → List IndexEntry → List IndexEntry
push entry entries =
    let pos = partition_point (hash_of entry) entries in
    if matches (hash_of entry) (get_elem? entries pos)
    then set entries pos entry
    else take pos entries ++ (entry ∷ drop pos entries)

-- `IndexFile::find`
pub find_hash : Digest → List IndexEntry → Option IndexEntry
find_hash hash entries =
    let found = get_elem? entries (partition_point hash entries) in
    if matches hash found then found else none

abbrev pub magic : Bytes
magic = 0xED ∷ 0xE2 ∷ []

abbrev pub version : ℕ
version = 1

abbrev pub tag_inline : ℕ
tag_inline = 1

abbrev pub tag_pack : ℕ
tag_pack = 2

abbrev pub tag_standalone : ℕ
tag_standalone = 3

abbrev pub min_entry_size : ℕ
min_entry_size = 33

-- The bytes of one entry; the length of inline data is one byte.
pub entry_bytes : IndexEntry → Bytes
entry_bytes (inline hash content) = tag_inline ∷ (hash.bytes ++ ((length content % 256) ∷ content))
entry_bytes (pack hash pack_hash offset size) =
    tag_pack ∷ (hash.bytes ++ (pack_hash.bytes ++ (be_bytes 4 offset ++ be_bytes 4 size)))
entry_bytes (standalone hash) = tag_standalone ∷ hash.bytes

pub all_bytes : List IndexEntry → Bytes
all_bytes [] = []
all_bytes (e ∷ es) = entry_bytes e ++ all_bytes es

pub serialise : List IndexEntry → Result Bytes
serialise entries =
    let count = length entries in
    if ltb (2 ^ 32 - 1) count
    then err other
    else ok (magic ++ (version ∷ (0 ∷ (be_bytes 4 count ++ all_bytes entries))))

-- What follows the tag and the hash of an entry.
pub parse_inline : Digest → Bytes → Result (IndexEntry × Bytes)
parse_inline hash [] = err invalid_object
parse_inline hash (data_len ∷ rest) =
    if ltb (length rest) data_len
    then err invalid_object
    else ok (inline hash (take data_len rest), drop data_len rest)

pub parse_pack : Digest → Bytes → Result (IndexEntry × Bytes)
parse_pack hash rest =
    if ltb (length rest) 40
    then err invalid_object
    else (let words = drop 32 rest in
        let offset = from_be (take 4 words) in
        let size = from_be (take 4 (drop 4 words)) in
        ok (pack hash (from_bytes (take 32 rest)) offset size, drop 4 (drop 4 words)))

pub parse_tagged : ℕ → Digest → Bytes → Result (IndexEntry × Bytes)
parse_tagged tag hash rest =
    if tag == tag_inline
    then parse_inline hash rest
    else if tag == tag_pack
    then parse_pack hash rest
    else if tag == tag_standalone
    then ok (standalone hash, rest)
    else err invalid_object

pub parse_entry : Bytes → Result (IndexEntry × Bytes)
parse_entry [] = err invalid_object
parse_entry (tag ∷ rest) =
    if ltb (length rest) 32
    then err invalid_object
    else parse_tagged tag (from_bytes (take 32 rest)) (drop 32 rest)

-- `for _ in 0..entry_count`
pub parse_entries : ℕ → Bytes → Result (List IndexEntry)
parse_entries zero rest = ok []
parse_entries (suc count) rest = do
  parsed ← parse_entry rest
  entries ← parse_entries count parsed.1
  ok (parsed.0 ∷ entries)

-- The last check: each hash is above the one before it.
unfoldable pub above : IndexEntry → List IndexEntry → Bool
above e [] = true
above e (f ∷ fs) = digest_lt (hash_of e) (hash_of f)

unfoldable pub is_sorted : List IndexEntry → Bool
is_sorted [] = true
is_sorted (e ∷ es) = above e es && is_sorted es

pub deserialise : Bytes → Result (List IndexEntry)
deserialise input =
    let entry_count = from_be (take 4 (drop 4 input)) in
    let remaining = length input - 8 in
    if ltb (length input) 8
    then err invalid_object
    else if not (bytes_eq (take 2 input) magic)
    then err invalid_object
    else if not (get_or input 2 0 == version)
    then err invalid_object
    else if ltb (remaining / min_entry_size) entry_count
    then err invalid_object
    else (do
      entries ← parse_entries entry_count (drop 8 input)
      if is_sorted entries then ok entries else err invalid_object)
