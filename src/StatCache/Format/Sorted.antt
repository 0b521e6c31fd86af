-- ===== src/StatCache/Format/Sorted.antt =====
-- The sort of `encode_v1` of src/stat_cache.rs, and the file as a map.
use omemfs.Prelude.{
  ◌+◌, ◌^◌, ◌<◌, ◌≡◌, refl, ap, ◌∙◌, inl, inr, Bool, true, [], ◌∷◌, Option, none, some,
  if◌then◌else◌, length, Bool-cases, arith,
}
use omemfs.Prelude.Bytes.{Bytes, bytes_eq, bytes_eq_iff, bytes_lt, bytes_lt_irrefl}
use omemfs.Prelude.Errors.{ok}
use omemfs.Prelude.Maps.{get}
use omemfs.StatCache.{StatCacheEntry, Entries, Saved}
use omemfs.StatCache.Merged.{DistinctKeys, or_else, get-overlay}
use omemfs.StatCache.Seals.{overlay}
use omemfs.StatCache.Format.{
  insert_sorted, sort_entries, total_path_len, padded, paths_offset_of, seal_epoch_len, encode_v1,
  parse_v1,
}
use omemfs.StatCache.Format.Rows.{FitsRow}
use omemfs.StatCache.Format.RoundTrip.{parse_v1-encode_sorted}
use omemfs.StatCache.Format.Laid.{FitsRows}

get-insert_sorted :
    (path key : Bytes) (entry : StatCacheEntry) (entries : Entries)
    → get path (insert_sorted key entry entries)
      ≡ (if bytes_eq key path then some entry else get path entries)
unfolding insert_sorted get
get-insert_sorted path key entry [] = refl
get-insert_sorted path key entry ((other, e) ∷ entries) = elim (Bool-cases (bytes_lt other key)) [
  | inr behind ↦ rw behind refl
  | inl before ↦ rw before (
      ap (λ t. if bytes_eq other path then some e else t) (get-insert_sorted path key entry entries)
      ∙ ground (arith, bytes_lt_irrefl key, bytes_eq_iff other path, bytes_eq_iff key path))
]

get-sort_entries :
    (path : Bytes) (entries : Entries) → get path (sort_entries entries) ≡ get path entries
unfolding sort_entries get
get-sort_entries path [] = refl
get-sort_entries path ((key, entry) ∷ entries) =
    get-insert_sorted path key entry (sort_entries entries)
    ∙ ap (λ t. if bytes_eq key path then some entry else t) (get-sort_entries path entries)

insert_sorted-DistinctKeys :
    (key : Bytes) (entry : StatCacheEntry) (entries : Entries)
    → get key entries ≡ none
    → DistinctKeys entries
    → DistinctKeys (insert_sorted key entry entries)
unfolding insert_sorted get
insert_sorted-DistinctKeys key entry [] new d = (refl, tt)
insert_sorted-DistinctKeys key entry ((other, e) ∷ entries) new d =
    elim (Bool-cases (bytes_lt other key)) [
      | inr behind ↦ rw behind (new, d)
      | inl before ↦
          let rest : get key entries ≡ none =
            ground (arith, bytes_lt_irrefl key, bytes_eq_iff other key) in
          rw before (
            get-insert_sorted other key entry entries
                ∙ ground (arith, d.0, bytes_lt_irrefl key, bytes_eq_iff key other),
            insert_sorted-DistinctKeys key entry entries rest d.1,
          )
    ]

sort_entries-DistinctKeys :
    (entries : Entries) → DistinctKeys entries → DistinctKeys (sort_entries entries)
unfolding sort_entries
sort_entries-DistinctKeys [] d = tt
sort_entries-DistinctKeys ((key, entry) ∷ entries) d =
    insert_sorted-DistinctKeys key entry (sort_entries entries) (get-sort_entries key entries ∙ d.0)
      (sort_entries-DistinctKeys entries d.1)

-- The sort changes neither the counts nor what fits.
insert_sorted-counts :
    (key : Bytes) (entry : StatCacheEntry) (entries : Entries)
    → (length (insert_sorted key entry entries) ≡ length entries + 1)
      × (total_path_len (insert_sorted key entry entries) ≡ length key + total_path_len entries)
unfolding insert_sorted total_path_len
insert_sorted-counts key entry [] = (refl, refl)
insert_sorted-counts key entry ((other, e) ∷ entries) = elim (Bool-cases (bytes_lt other key)) [
  | inr behind ↦ rw behind (omega arith, refl)
  | inl before ↦
      let (l, t) = insert_sorted-counts key entry entries in
      rw before (omega (arith, l), omega (arith, t))
]

sort_entries-counts :
    (entries : Entries)
    → (length (sort_entries entries) ≡ length entries)
      × (total_path_len (sort_entries entries) ≡ total_path_len entries)
unfolding sort_entries total_path_len
sort_entries-counts [] = (refl, refl)
sort_entries-counts ((key, entry) ∷ entries) =
    let (l, t) = insert_sorted-counts key entry (sort_entries entries) in
    let (m, u) = sort_entries-counts entries in (omega (arith, l, m), omega (arith, t, u))

insert_sorted-FitsRows :
    (is_utf8 : Bytes → Bool) (key : Bytes) (entry : StatCacheEntry) (entries : Entries)
    → is_utf8 key ≡ true
    → FitsRow entry
    → FitsRows is_utf8 entries
    → FitsRows is_utf8 (insert_sorted key entry entries)
unfolding insert_sorted
insert_sorted-FitsRows is_utf8 key entry [] u f fits = (u, f, tt)
insert_sorted-FitsRows is_utf8 key entry ((other, e) ∷ entries) u f fits =
    elim (Bool-cases (bytes_lt other key)) [
      | inr behind ↦ rw behind (u, f, fits)
      | inl before ↦
          rw before (fits.0, fits.1, insert_sorted-FitsRows is_utf8 key entry entries u f fits.2)
    ]

sort_entries-FitsRows :
    (is_utf8 : Bytes → Bool) (entries : Entries)
    → FitsRows is_utf8 entries
    → FitsRows is_utf8 (sort_entries entries)
unfolding sort_entries
sort_entries-FitsRows is_utf8 [] fits = tt
sort_entries-FitsRows is_utf8 ((key, entry) ∷ entries) fits =
    insert_sorted-FitsRows is_utf8 key entry (sort_entries entries) fits.0 fits.1
      (sort_entries-FitsRows is_utf8 entries fits.2)

or_else-none : (o : Option StatCacheEntry) → or_else o none ≡ o
or_else-none none = refl
or_else-none (some entry) = refl

-- A cache with one entry for each path, whose paths are text, whose fields fit their words and
-- whose data begins below 2^32 is written; the bytes parse to entries in which every path finds
-- what it found before, and to the same epoch of 16 bytes.
pub parse_v1-encode_v1 :
    (is_utf8 : Bytes → Bool) (entries : Entries) (seal_epoch : Bytes)
    → DistinctKeys entries
    → FitsRows is_utf8 entries
    → paths_offset_of entries + padded (total_path_len entries) < 2 ^ 32
    → length seal_epoch ≡ seal_epoch_len
    → (bytes : Bytes) × (saved : Saved) × (encode_v1 entries seal_epoch ≡ ok bytes)
      × (parse_v1 is_utf8 bytes ≡ some saved)
      × ((path : Bytes) → get path saved.entries ≡ get path entries)
      × (saved.seal_epoch ≡ seal_epoch)
unfolding encode_v1 get
parse_v1-encode_v1 is_utf8 entries seal_epoch distinct fits small epoch_16 =
    let sorted = sort_entries entries in
    let (l, t) = sort_entries-counts entries in
    let (bytes, written, parsed) =
      parse_v1-encode_sorted is_utf8 sorted seal_epoch (sort_entries-FitsRows is_utf8 entries fits)
        (rw (l, t) small) epoch_16 in
    (
      bytes,
      record { entries = overlay sorted []; seal_epoch = seal_epoch },
      written,
      parsed,
      (λ path.
          get-overlay path sorted [] (sort_entries-DistinctKeys entries distinct)
          ∙ or_else-none (get path sorted)
          ∙ get-sort_entries path entries),
      refl,
    )
