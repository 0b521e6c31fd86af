-- ===== src/StatCache/Format/Laid.antt =====
-- The rows that `encode_v1` of src/stat_cache.rs lays out, as `parse_v1` finds them.
use omemfs.Prelude.{
  ℕ, suc, ◌+◌, ◌-◌, ◌*◌, ◌^◌, ◌<◌, ◌≤◌, ◌≡◌, refl, ap, ◌∙◌, Bool, true, false, [], ◌∷◌, ◌++◌, some,
  ltb, length, drop, take_front, drop_front, drop-drop, append_assoc, arith,
}
use omemfs.Prelude.Bytes.{Bytes}
use omemfs.Prelude.Words.{be_bytes, length-be_bytes}
use omemfs.Prelude.Errors.{ok}
use omemfs.Prelude.Maps.{insert}
use omemfs.StatCache.{Entries}
use omemfs.StatCache.Seals.{overlay}
use omemfs.StatCache.Format.{
  header_len, index_entry_len, data_entry_len, total_path_len, path_len_u32, index_bytes,
  path_bytes, entry_bytes, data_bytes, parse_rows,
}
use omemfs.StatCache.Format.Rows.{
  FitsRow, u32_at-be_bytes, length-entry_bytes, parse_entry-entry_bytes,
}

-- The rows fit their fields, and the paths are text.
abbrev pub FitsRows : (Bytes → Bool) → Entries → Type 0
FitsRows is_utf8 [] = Unit
FitsRows is_utf8 ((path, entry) ∷ entries) =
    (is_utf8 path ≡ true) × FitsRow entry × FitsRows is_utf8 entries

-- The INDEX, where no cursor overflows.
unfoldable pub index_of : ℕ → Entries → Bytes
index_of cursor [] = []
index_of cursor ((path, entry) ∷ entries) =
    be_bytes 4 cursor ++ (be_bytes 4 (length path) ++ index_of (cursor + length path) entries)

pub index_bytes-index_of :
    (cursor : ℕ) (entries : Entries)
    → cursor + total_path_len entries < 2 ^ 32
    → index_bytes cursor entries ≡ ok (index_of cursor entries)
unfolding index_bytes index_of total_path_len
index_bytes-index_of cursor [] h = refl
index_bytes-index_of cursor ((path, entry) ∷ entries) h =
    let short : path_len_u32 path ≡ length path = omega arith in
    let fits : ltb (cursor + length path) (2 ^ 32) ≡ true = ground arith in
    rw (short, fits, index_bytes-index_of (cursor + length path) entries (omega arith)) refl

-- On from an offset, past what stands there.
pub drop_on :
    (bytes : Bytes) (off n next : ℕ) (front back : Bytes)
    → drop off bytes ≡ front ++ back
    → length front ≡ n
    → next ≡ off + n
    → drop next bytes ≡ back
drop_on bytes off n next front back h l e =
    ap (λ k. drop k bytes) e ∙ drop-drop off n bytes ∙ ap (drop n) h ∙ drop_front n front back l

module _ (is_utf8 : Bytes → Bool) (bytes : Bytes) (p d : ℕ) where
  pub parse_rows_lem :
      (entries : Entries) (i cursor : ℕ) (acc : Entries) (x y z : Bytes)
      → drop (header_len + i * index_entry_len) bytes ≡ index_of cursor entries ++ x
      → drop (d + i * data_entry_len) bytes ≡ data_bytes entries ++ y
      → drop (p + cursor) bytes ≡ path_bytes entries ++ z
      → cursor + total_path_len entries ≤ d - p
      → cursor + total_path_len entries < 2 ^ 32
      → FitsRows is_utf8 entries
      → parse_rows is_utf8 bytes p d (length entries) i acc ≡ some (overlay entries acc)
  unfolding parse_rows overlay index_of path_bytes data_bytes total_path_len
  parse_rows_lem [] i cursor acc x y z at_index at_data at_path inside small fits = refl
  parse_rows_lem ((path, entry) ∷ entries) i cursor acc x y z at_index at_data at_path inside small
        fits =
      let len = be_bytes 4 (length path) in
      let more = index_of (cursor + length path) entries in
      let index_1 = at_index ∙ append_assoc (be_bytes 4 cursor) (len ++ more) x in
      let index_2 : drop (header_len + i * index_entry_len + 4) bytes ≡ len ++ (more ++ x) =
        drop_on bytes (header_len + i * index_entry_len) 4 (header_len + i * index_entry_len + 4)
          (be_bytes 4 cursor) ((len ++ more) ++ x) index_1 (length-be_bytes 4 cursor) refl
        ∙ append_assoc len more x in
      let index_3 : drop (header_len + suc i * index_entry_len) bytes ≡ more ++ x =
        drop_on bytes (header_len + i * index_entry_len + 4) 4
          (header_len + suc i * index_entry_len) len (more ++ x) index_2
          (length-be_bytes 4 (length path)) (omega arith) in
      let data_1 = at_data ∙ append_assoc (entry_bytes entry) (data_bytes entries) y in
      let data_2 : drop (d + suc i * data_entry_len) bytes ≡ data_bytes entries ++ y =
        drop_on bytes (d + i * data_entry_len) 56 (d + suc i * data_entry_len) (entry_bytes entry)
          (data_bytes entries ++ y) data_1 (length-entry_bytes entry fits.1) (omega arith) in
      let path_1 = at_path ∙ append_assoc path (path_bytes entries) z in
      let path_2 : drop (p + (cursor + length path)) bytes ≡ path_bytes entries ++ z =
        drop_on bytes (p + cursor) (length path) (p + (cursor + length path)) path
          (path_bytes entries ++ z) path_1 refl (omega arith) in
      let in_range : ltb (d - p) (cursor + length path) ≡ false = ground arith in
      rw
        (
          parse_rows,
          u32_at-be_bytes bytes (header_len + i * index_entry_len) cursor ((len ++ more) ++ x)
              index_1 (omega arith),
          u32_at-be_bytes bytes (header_len + i * index_entry_len + 4) (length path) (more ++ x)
              index_2 (omega arith),
          path_1,
          take_front (length path) path (path_bytes entries ++ z) refl,
          data_1,
          parse_entry-entry_bytes entry (data_bytes entries ++ y) fits.1,
          fits.0,
          in_range,
        )
        (parse_rows_lem entries (suc i) (cursor + length path) (insert path entry acc) x y z index_3
          data_2 path_2 (omega arith) (omega arith) fits.2)
