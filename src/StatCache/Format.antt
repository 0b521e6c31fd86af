-- ===== src/StatCache/Format.antt =====
-- The file of src/stat_cache.rs: `encode_v1` and `parse_v1`. A word that is too large is cut to its
-- low bytes, as by a cast. The check for UTF-8 is code of the standard library: the parameter `is_utf8`.
pub mod Rows
pub mod Laid
pub mod RoundTrip
pub mod Sorted
use omemfs.Prelude.{
  ℕ, zero, suc, ◌+◌, ◌-◌, ◌*◌, ◌/◌, ◌%◌, ◌^◌, Bool, true, false, not, ◌||◌, List, [], ◌∷◌, ◌++◌,
  Option, none, some, ◌==◌, ltb, leb, if◌then◌else◌, length, take, drop, replicate, bit_and, bit_or,
}
use omemfs.Prelude.Bytes.{Bytes, codes, bytes_eq, bytes_lt}
use omemfs.Prelude.Words.{be_bytes, from_be}
use omemfs.Prelude.Errors.{Result, ok, err, other, ◌>>=◌}
use omemfs.Prelude.Maps.{insert}
use omemfs.Object.Digest.{Digest, from_bytes}
use omemfs.StatCache.Times.{ℤ, pos, negsuc, as_i64}
use omemfs.StatCache.{StatCacheEntry, Entries, Saved}

abbrev pub magic : Bytes
magic = codes "OSTC"

abbrev pub version : ℕ
version = 1

abbrev pub header_len : ℕ
header_len = 32

abbrev pub index_entry_len : ℕ
index_entry_len = 8

abbrev pub data_entry_len : ℕ
data_entry_len = 56

abbrev pub digest_len : ℕ
digest_len = 32

abbrev pub seal_epoch_len : ℕ
seal_epoch_len = 16

-- `sorted.sort_by(…)`, on the bytes of the paths.
unfoldable pub insert_sorted : Bytes → StatCacheEntry → Entries → Entries
insert_sorted path entry [] = (path, entry) ∷ []
insert_sorted path entry ((key, e) ∷ entries) =
    let later = insert_sorted path entry entries in
    if bytes_lt key path then (key, e) ∷ later else (path, entry) ∷ ((key, e) ∷ entries)

unfoldable pub sort_entries : Entries → Entries
sort_entries [] = []
sort_entries ((path, entry) ∷ entries) = insert_sorted path entry (sort_entries entries)

unfoldable pub total_path_len : Entries → ℕ
total_path_len [] = 0
total_path_len ((path, entry) ∷ entries) = length path + total_path_len entries

-- `path.len() as u32`
abbrev pub path_len_u32 : Bytes → ℕ
path_len_u32 path = length path % 2 ^ 32

-- The INDEX, from a cursor on; the cursor overflows past 32 bits.
unfoldable pub index_bytes : ℕ → Entries → Result Bytes
index_bytes cursor [] = ok []
index_bytes cursor ((path, entry) ∷ entries) =
    let later = index_bytes (cursor + path_len_u32 path) entries in
    if ltb (cursor + path_len_u32 path) (2 ^ 32)
    then (do rest ← later; ok (be_bytes 4 cursor ++ (be_bytes 4 (path_len_u32 path) ++ rest)))
    else err other

unfoldable pub path_bytes : Entries → Bytes
path_bytes [] = []
path_bytes ((path, entry) ∷ entries) = path ++ path_bytes entries

-- `(total_path_len + PATHS_ALIGN - 1) & !(PATHS_ALIGN - 1)`
unfoldable pub padded : ℕ → ℕ
padded n = (n + 7) / 8 * 8

unfoldable pub flags_of : StatCacheEntry → ℕ
flags_of entry = bit_or (if entry.is_unsafe then 1 else 0) (if entry.sealed then 2 else 0)

-- `to_be_bytes` of an `i64`: two's complement.
unfoldable pub i64_bytes : ℤ → Bytes
i64_bytes (pos n) = be_bytes 8 n
i64_bytes (negsuc n) = be_bytes 8 (2 ^ 64 - 1 - n)

unfoldable pub entry_bytes : StatCacheEntry → Bytes
entry_bytes entry =
    i64_bytes entry.mtime_secs
    ++ (be_bytes 4 entry.mtime_nanos
        ++ (be_bytes 8 entry.fs_size ++ (entry.hash.bytes ++ be_bytes 4 (flags_of entry))))

unfoldable pub data_bytes : Entries → Bytes
data_bytes [] = []
data_bytes ((path, entry) ∷ entries) = entry_bytes entry ++ data_bytes entries

abbrev pub paths_offset_of : Entries → ℕ
paths_offset_of sorted = header_len + length sorted * index_entry_len

unfoldable pub header_bytes : Entries → Bytes
header_bytes sorted =
    magic
    ++ (be_bytes 4 version
        ++ (be_bytes 4 (length sorted)
            ++ (be_bytes 4 0
                ++ (be_bytes 4 header_len
                    ++ (be_bytes 4 (paths_offset_of sorted)
                        ++ (be_bytes 4 (paths_offset_of sorted + padded (total_path_len sorted))
                            ++ be_bytes 4 0))))))

-- What follows the INDEX.
unfoldable pub tail_bytes : Entries → Bytes → Bytes
tail_bytes sorted seal_epoch =
    path_bytes sorted
    ++ (replicate (padded (total_path_len sorted) - total_path_len sorted) 0
        ++ (data_bytes sorted ++ (seal_epoch ++ replicate (digest_len - seal_epoch_len) 0)))

unfoldable pub encode_sorted : Entries → Bytes → Result Bytes
encode_sorted sorted seal_epoch = do
  index ← index_bytes 0 sorted
  ok (header_bytes sorted ++ (index ++ tail_bytes sorted seal_epoch))

unfoldable pub encode_v1 : Entries → Bytes → Result Bytes
encode_v1 entries seal_epoch = encode_sorted (sort_entries entries) seal_epoch

-- `u32::from_be_bytes` of the four bytes at an offset.
unfoldable pub u32_at : Bytes → ℕ → ℕ
u32_at bytes off = from_be (take 4 (drop off bytes))

-- The entry whose data begins the bytes.
unfoldable pub parse_entry : Bytes → StatCacheEntry
parse_entry row = record {
  mtime_secs = as_i64 (from_be (take 8 row));
  mtime_nanos = from_be (take 4 (drop 8 row));
  fs_size = from_be (take 8 (drop 12 row));
  hash = from_bytes (take 32 (drop 20 row));
  is_unsafe = not (bit_and (from_be (take 4 (drop 52 row))) 1 == 0);
  sealed = not (bit_and (from_be (take 4 (drop 52 row))) 2 == 0);
}

module _ (is_utf8 : Bytes → Bool) where
  -- The rounds of the loop of `parse_v1` that are left, from `i` on.
  unfoldable pub parse_rows : Bytes → ℕ → ℕ → ℕ → ℕ → Entries → Option Entries
  parse_rows bytes paths_offset data_offset zero i entries = some entries
  parse_rows bytes paths_offset data_offset (suc left) i entries =
      let idx = header_len + i * index_entry_len in
      let path_offset = u32_at bytes idx in
      let path_len = u32_at bytes (idx + 4) in
      let path = take path_len (drop (paths_offset + path_offset) bytes) in
      let entry = parse_entry (drop (data_offset + i * data_entry_len) bytes) in
      let skipped = parse_rows bytes paths_offset data_offset left (suc i) entries in
      let kept =
        parse_rows bytes paths_offset data_offset left (suc i) (insert path entry entries) in
      if ltb (data_offset - paths_offset) (path_offset + path_len)
      then skipped
      else if is_utf8 path
      then kept
      else none

  unfoldable pub parse_v1 : Bytes → Option Saved
  parse_v1 bytes =
      let entry_count = u32_at bytes 8 in
      let index_offset = u32_at bytes 16 in
      let paths_offset = u32_at bytes 20 in
      let data_offset = u32_at bytes 24 in
      let body_end = data_offset + entry_count * data_entry_len in
      if ltb (length bytes) (header_len + digest_len)
      then none
      else if not (bytes_eq (take 4 bytes) magic)
      then none
      else if not (u32_at bytes 4 == version)
      then none
      else if not (index_offset == header_len)
      then none
      else if ltb paths_offset (index_offset + entry_count * index_entry_len)
          || ltb data_offset paths_offset
      then none
      else if ltb (length bytes) (body_end + digest_len)
      then none
      else elim (parse_rows bytes paths_offset data_offset entry_count 0 []) [
        | none ↦ none
        | some entries ↦
            some
              (record { entries = entries; seal_epoch = take seal_epoch_len (drop body_end bytes) })
      ]
