-- ===== src/StatCache/Format/RoundTrip.antt =====
-- `encode_v1` of src/stat_cache.rs followed by `parse_v1`.
use omemfs.Prelude.{
  ℕ, ◌+◌, ◌-◌, ◌*◌, ◌^◌, ◌<◌, ◌≤◌, ◌≡◌, refl, ap, ap₂, ◌∙◌, Bool, false, [], ◌∷◌, ◌++◌, some, ltb,
  length, take, drop, replicate, length-append, length-drop, length-replicate, take_front, arith,
}
use omemfs.Prelude.Bytes.{Bytes, bytes_eq_refl}
use omemfs.Prelude.Words.{be_bytes, length-be_bytes}
use omemfs.Prelude.Errors.{ok}
use omemfs.StatCache.{Entries}
use omemfs.StatCache.Seals.{overlay}
use omemfs.StatCache.Format.{
  magic, version, header_len, index_entry_len, data_entry_len, digest_len, seal_epoch_len,
  total_path_len, path_bytes, padded, entry_bytes, data_bytes, paths_offset_of, header_bytes,
  tail_bytes, encode_sorted, u32_at, parse_rows, parse_v1,
}
use omemfs.StatCache.Format.Rows.{u32_at-be_bytes, length-entry_bytes}
use omemfs.StatCache.Format.Laid.{parse_rows_lem, FitsRows, index_of, index_bytes-index_of, drop_on}

length-index_of :
    (cursor : ℕ) (entries : Entries) → length (index_of cursor entries) ≡ length entries * 8
unfolding index_of
length-index_of cursor [] = refl
length-index_of cursor ((path, entry) ∷ entries) = omega (
  arith,
  length-append (be_bytes 4 cursor)
      (be_bytes 4 (length path) ++ index_of (cursor + length path) entries),
  length-append (be_bytes 4 (length path)) (index_of (cursor + length path) entries),
  length-be_bytes 4 cursor,
  length-be_bytes 4 (length path),
  length-index_of (cursor + length path) entries,
)

length-path_bytes : (entries : Entries) → length (path_bytes entries) ≡ total_path_len entries
unfolding path_bytes total_path_len
length-path_bytes [] = refl
length-path_bytes ((path, entry) ∷ entries) =
    omega (arith, length-append path (path_bytes entries), length-path_bytes entries)

length-data_bytes :
    (is_utf8 : Bytes → Bool) (entries : Entries)
    → FitsRows is_utf8 entries
    → length (data_bytes entries) ≡ length entries * 56
unfolding data_bytes
length-data_bytes is_utf8 [] fits = refl
length-data_bytes is_utf8 ((path, entry) ∷ entries) fits = omega (
  arith,
  length-append (entry_bytes entry) (data_bytes entries),
  length-entry_bytes entry fits.1,
  length-data_bytes is_utf8 entries fits.2,
)

-- Where the words of the header stand.
header_words :
    (entries : Entries) (rest : Bytes)
    → let bytes = header_bytes entries ++ rest in
      (take 4 bytes ≡ magic)
      × ((r : Bytes) × (drop 4 bytes ≡ be_bytes 4 version ++ r))
      × ((r : Bytes) × (drop 8 bytes ≡ be_bytes 4 (length entries) ++ r))
      × ((r : Bytes) × (drop 16 bytes ≡ be_bytes 4 header_len ++ r))
      × ((r : Bytes) × (drop 20 bytes ≡ be_bytes 4 (paths_offset_of entries) ++ r))
      × ((r : Bytes) × (drop 24 bytes
            ≡ be_bytes 4 (paths_offset_of entries + padded (total_path_len entries)) ++ r))
      × (drop 32 bytes ≡ rest)
unfolding header_bytes be_bytes
header_words entries rest =
    let p = paths_offset_of entries in
    let from_data = be_bytes 4 (p + padded (total_path_len entries)) ++ (be_bytes 4 0 ++ rest) in
    let from_paths = be_bytes 4 p ++ from_data in
    let from_index = be_bytes 4 header_len ++ from_paths in
    let from_count = be_bytes 4 (length entries) ++ (be_bytes 4 0 ++ from_index) in
    (
      refl,
      (from_count, refl),
      (be_bytes 4 0 ++ from_index, refl),
      (from_paths, refl),
      (from_data, refl),
      (be_bytes 4 0 ++ rest, refl),
      refl,
    )

padded_up : (n : ℕ) → n ≤ padded n
unfolding padded
padded_up n = omega arith

-- `parse_v1` on a file whose header and rows are known.
parse_v1_parts :
    (is_utf8 : Bytes → Bool) (bytes : Bytes) (n p d : ℕ) (rows : Entries)
    → take 4 bytes ≡ magic
    → u32_at bytes 4 ≡ version
    → u32_at bytes 8 ≡ n
    → u32_at bytes 16 ≡ header_len
    → u32_at bytes 20 ≡ p
    → u32_at bytes 24 ≡ d
    → header_len + n * index_entry_len ≤ p
    → p ≤ d
    → d + n * data_entry_len + digest_len ≤ length bytes
    → parse_rows is_utf8 bytes p d n 0 [] ≡ some rows
    → parse_v1 is_utf8 bytes
      ≡ some (record {
        entries = rows;
        seal_epoch = take seal_epoch_len (drop (d + n * data_entry_len) bytes);
      })
unfolding parse_v1
parse_v1_parts is_utf8 bytes n p d rows is_magic at_4 at_8 at_16 at_20 at_24 index_in path_in
      data_in reads =
    let long : ltb (length bytes) (header_len + digest_len) ≡ false = ground arith in
    let index_ok : ltb p (header_len + n * index_entry_len) ≡ false = ground arith in
    let path_ok : ltb d p ≡ false = ground arith in
    let data_ok : ltb (length bytes) (d + n * data_entry_len + digest_len) ≡ false = ground arith in
    rw
      (
        parse_v1,
        long,
        is_magic,
        bytes_eq_refl magic,
        at_4,
        at_8,
        at_16,
        at_20,
        at_24,
        index_ok,
        path_ok,
        data_ok,
        reads,
      )
      (ap₂
        (λ a b. some (record {
          entries = rows;
          seal_epoch = take seal_epoch_len (drop (a + b * data_entry_len) bytes);
        }))
        at_24 at_8)

-- A file of sorted entries that fit their fields is written and reads back.
pub parse_v1-encode_sorted :
    (is_utf8 : Bytes → Bool) (entries : Entries) (seal_epoch : Bytes)
    → FitsRows is_utf8 entries
    → paths_offset_of entries + padded (total_path_len entries) < 2 ^ 32
    → length seal_epoch ≡ seal_epoch_len
    → (bytes : Bytes) × (encode_sorted entries seal_epoch ≡ ok bytes)
      × (parse_v1 is_utf8 bytes
          ≡ some (record { entries = overlay entries []; seal_epoch = seal_epoch }))
unfolding encode_sorted parse_v1 tail_bytes
parse_v1-encode_sorted is_utf8 entries seal_epoch fits small epoch_16 =
    let total = total_path_len entries in
    let n = length entries in
    let p = paths_offset_of entries in
    let d = p + padded total in
    let index = index_of 0 entries in
    let zeros = replicate {A = ℕ} (digest_len - seal_epoch_len) 0 in
    let pad = replicate {A = ℕ} (padded total - total) 0 in
    let data_on = data_bytes entries ++ (seal_epoch ++ zeros) in
    let body = index ++ tail_bytes entries seal_epoch in
    let bytes = header_bytes entries ++ body in
    let (is_magic, (r4, at_4), (r8, at_8), (r16, at_16), (r20, at_20), (r24, at_24), at_32) =
      header_words entries body in
    let up = padded_up total in
    let at_p : drop p bytes ≡ path_bytes entries ++ (pad ++ data_on) =
      drop_on bytes 32 (n * 8) p index (tail_bytes entries seal_epoch) at_32
        (length-index_of 0 entries) refl in
    let at_pad : drop (p + total) bytes ≡ pad ++ data_on =
      drop_on bytes p total (p + total) (path_bytes entries) (pad ++ data_on) at_p
        (length-path_bytes entries) refl in
    let at_d : drop d bytes ≡ data_on =
      drop_on bytes (p + total) (padded total - total) d pad data_on at_pad
        (length-replicate (padded total - total) 0) (omega arith) in
    let at_end : drop (d + n * 56) bytes ≡ seal_epoch ++ zeros =
      drop_on bytes d (n * 56) (d + n * 56) (data_bytes entries) (seal_epoch ++ zeros) at_d
        (length-data_bytes is_utf8 entries fits) refl in
    let rows : parse_rows is_utf8 bytes p d n 0 [] ≡ some (overlay entries []) =
      parse_rows_lem is_utf8 bytes p d entries 0 0 [] (tail_bytes entries seal_epoch)
        (seal_epoch ++ zeros) (pad ++ data_on) at_32
        (drop_on bytes d 0 (d + 0) [] data_on at_d refl refl)
        (drop_on bytes p 0 (p + 0) [] (path_bytes entries ++ (pad ++ data_on)) at_p refl refl)
        (omega arith) (omega arith) fits in
    let left : length (drop (d + n * 56) bytes) ≡ length seal_epoch + length zeros =
      ap length at_end ∙ length-append seal_epoch zeros in
    (
      bytes,
      rw (index_bytes-index_of 0 entries (omega arith)) refl,
      parse_v1_parts is_utf8 bytes n p d (overlay entries []) is_magic
            (u32_at-be_bytes bytes 4 version r4 at_4 (omega arith))
            (u32_at-be_bytes bytes 8 n r8 at_8 (omega arith))
            (u32_at-be_bytes bytes 16 header_len r16 at_16 (omega arith))
            (u32_at-be_bytes bytes 20 p r20 at_20 (omega arith))
            (u32_at-be_bytes bytes 24 d r24 at_24 small) (omega arith) (omega arith)
            (omega (
              arith,
              length-drop (d + n * 56) bytes,
              left,
              epoch_16,
              length-replicate {A = ℕ} (digest_len - seal_epoch_len) 0,
            ))
            rows
          ∙ ap (λ e. some (record { entries = overlay entries []; seal_epoch = e }))
              (ap (take seal_epoch_len) at_end
                ∙ take_front seal_epoch_len seal_epoch zeros epoch_16),
    )
