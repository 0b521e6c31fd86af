-- ===== src/Pack/Index/RoundTrip.antt =====
-- `serialise` of src/codec/pack/index.rs followed by `deserialise`.
use omemfs.Prelude.{
  ℕ, ◌*◌, ◌%◌, ◌^◌, ◌≤◌, ◌<◌, ◌≡◌, refl, true, false, List, [], ◌∷◌, ◌++◌, ltb, length,
  length-append, take-append, take_front, drop_front, drop-append, append_assoc, All, arith,
}
use omemfs.Prelude.Bytes.{Bytes, bytes_eq_refl}
use omemfs.Prelude.Words.{be_bytes, from_be-be_bytes, length-be_bytes}
use omemfs.Prelude.Errors.{ok}
use omemfs.Object.Digest.{Digest}
use omemfs.Object.Tags.RoundTrip.{IsDigest}
use omemfs.Pack.Index.{
  IndexEntry, inline, pack, standalone, magic, entry_bytes, all_bytes, serialise, parse_inline,
  parse_pack, parse_tagged, parse_entry, parse_entries, is_sorted, deserialise,
}

-- An entry whose fields fit: inline data under 256 bytes, an offset and a length of 32 bits.
abbrev pub Fits : IndexEntry → Type 0
Fits (inline hash content) = IsDigest hash × (length content < 256)
Fits (pack hash pack_hash offset size) =
    IsDigest hash × IsDigest pack_hash × (offset < 2 ^ 32) × (size < 2 ^ 32)
Fits (standalone hash) = IsDigest hash

not_short : (n : ℕ) (xs ys : Bytes) → n ≤ length xs → ltb (length (xs ++ ys)) n ≡ false
not_short n xs ys h = let size = length-append xs ys in ground arith

parse_entry_tag :
    (tag : ℕ) (hash : Digest) (rest : Bytes)
    → IsDigest hash
    → parse_entry (tag ∷ (hash.bytes ++ rest)) ≡ parse_tagged tag hash rest
unfolding parse_entry
parse_entry_tag tag hash rest (p, n) =
    rw
      (
        not_short 32 hash.bytes rest (omega arith),
        take_front 32 hash.bytes rest n,
        drop_front 32 hash.bytes rest n,
        ← p,
      )
      refl

parse_inline_lem :
    (hash : Digest) (content rest : Bytes)
    → length content < 256
    → parse_inline hash ((length content % 256) ∷ (content ++ rest))
      ≡ ok (inline hash content, rest)
unfolding parse_inline
parse_inline_lem hash content rest h =
    let small : length content % 256 ≡ length content = omega arith in
    rw (
      small,
      not_short (length content) content rest (omega arith),
      take-append content rest,
      drop-append content rest,
    )

parse_pack_lem :
    (hash pack_hash : Digest) (offset size : ℕ) (rest : Bytes)
    → IsDigest pack_hash
    → offset < 2 ^ 32
    → size < 2 ^ 32
    → parse_pack hash (pack_hash.bytes ++ (be_bytes 4 offset ++ (be_bytes 4 size ++ rest)))
      ≡ ok (pack hash pack_hash offset size, rest)
unfolding parse_pack
parse_pack_lem hash pack_hash offset size rest (p, n) h k =
    let words = be_bytes 4 offset ++ (be_bytes 4 size ++ rest) in
    let long : ltb (length (pack_hash.bytes ++ words)) 40 ≡ false =
      (let a = length-append pack_hash.bytes words in
        let b = length-append (be_bytes 4 offset) (be_bytes 4 size ++ rest) in
        let c = length-append (be_bytes 4 size) rest in
        let d = length-be_bytes 4 offset in let e = length-be_bytes 4 size in ground arith) in
    rw
      (
        long,
        take_front 32 pack_hash.bytes words n,
        drop_front 32 pack_hash.bytes words n,
        take_front 4 (be_bytes 4 offset) (be_bytes 4 size ++ rest) (length-be_bytes 4 offset),
        drop_front 4 (be_bytes 4 offset) (be_bytes 4 size ++ rest) (length-be_bytes 4 offset),
        take_front 4 (be_bytes 4 size) rest (length-be_bytes 4 size),
        drop_front 4 (be_bytes 4 size) rest (length-be_bytes 4 size),
        from_be-be_bytes 4 offset (omega arith),
        from_be-be_bytes 4 size (omega arith),
        ← p,
      )
      refl

parse_entry_lem :
    (e : IndexEntry) (rest : Bytes) → Fits e → parse_entry (entry_bytes e ++ rest) ≡ ok (e, rest)
unfolding entry_bytes parse_tagged
parse_entry_lem (inline hash content) rest (d, h) =
    rw
      (
        append_assoc hash.bytes ((length content % 256) ∷ content) rest,
        parse_entry_tag 1 hash ((length content % 256) ∷ (content ++ rest)) d,
      )
      (parse_inline_lem hash content rest h)
parse_entry_lem (pack hash pack_hash offset size) rest (d, d', h, k) =
    let low = be_bytes 4 size in
    let words = be_bytes 4 offset ++ low in
    rw
      (
        append_assoc hash.bytes (pack_hash.bytes ++ words) rest,
        append_assoc pack_hash.bytes words rest,
        append_assoc (be_bytes 4 offset) low rest,
        parse_entry_tag 2 hash (pack_hash.bytes ++ (be_bytes 4 offset ++ (low ++ rest))) d,
      )
      (parse_pack_lem hash pack_hash offset size rest d' h k)
parse_entry_lem (standalone hash) rest d = rw (parse_entry_tag 3 hash rest d) refl

parse_entries_lem :
    (es : List IndexEntry) → All Fits es → parse_entries (length es) (all_bytes es) ≡ ok es
unfolding parse_entries all_bytes
parse_entries_lem [] h = refl
parse_entries_lem (e ∷ es) (f, h) = rw (parse_entry_lem e (all_bytes es) f, parse_entries_lem es h)

length-entry_bytes : (e : IndexEntry) → Fits e → 33 ≤ length (entry_bytes e)
unfolding entry_bytes
length-entry_bytes (inline hash content) ((p, n), h) =
    omega (arith, n, length-append hash.bytes ((length content % 256) ∷ content))
length-entry_bytes (pack hash pack_hash offset size) ((p, n), d, h, k) =
    omega (
      arith,
      n,
      length-append hash.bytes (pack_hash.bytes ++ (be_bytes 4 offset ++ be_bytes 4 size)),
    )
length-entry_bytes (standalone hash) (p, n) = omega (arith, n)

-- The count never exceeds what the bytes could hold, so the guard lets every written index through.
length-all_bytes : (es : List IndexEntry) → All Fits es → 33 * length es ≤ length (all_bytes es)
unfolding all_bytes
length-all_bytes [] h = omega arith
length-all_bytes (e ∷ es) (f, h) = omega (
  arith,
  length-append (entry_bytes e) (all_bytes es),
  length-entry_bytes e f,
  length-all_bytes es h,
)

-- The bytes that an index is written as.
index_bytes : List IndexEntry → Bytes
index_bytes es = magic ++ (1 ∷ (0 ∷ (be_bytes 4 (length es) ++ all_bytes es)))

serialise_bytes : (es : List IndexEntry) → length es < 2 ^ 32 → serialise es ≡ ok (index_bytes es)
unfolding serialise index_bytes
serialise_bytes es h = ground arith

deserialise_bytes :
    (es : List IndexEntry)
    → All Fits es
    → is_sorted es ≡ true
    → length es < 2 ^ 32
    → deserialise (index_bytes es) ≡ ok es
unfolding deserialise index_bytes
deserialise_bytes es f s h =
    let body = all_bytes es in
    let word = be_bytes 4 (length es) in
    let n = length-be_bytes 4 (length es) in
    let size = length-append word body in
    let room = length-all_bytes es f in
    rw
      (
        take_front 4 word body n,
        drop_front 4 word body n,
        from_be-be_bytes 4 (length es) (omega arith),
        parse_entries_lem es f,
        s,
        bytes_eq_refl magic,
      )
      (ground (arith, size, n, room))

-- An index of fewer than 2^32 entries, sorted by hash and with fields that fit, is written, and
-- reads back as it was.
pub serialise_lem :
    (es : List IndexEntry)
    → All Fits es
    → is_sorted es ≡ true
    → length es < 2 ^ 32
    → (bytes : Bytes) × (serialise es ≡ ok bytes) × (deserialise bytes ≡ ok es)
serialise_lem es f s h = (index_bytes es, serialise_bytes es h, deserialise_bytes es f s h)
