-- ===== src/StatCache/Format/Rows.antt =====
-- One row of the file of src/stat_cache.rs, written and read.
use omemfs.Prelude.{
  ℕ, ◌-◌, ◌^◌, ◌<◌, ◌≡◌, refl, sym, ap, ◌∙◌, not, ◌++◌, ◌==◌, length, take, drop, bit_and,
  length-append, take_front, drop_front, drop_past, append_assoc, arith, Bool-cases, inl, inr,
}
use omemfs.Prelude.Bytes.{Bytes}
use omemfs.Prelude.Words.{be_bytes, from_be, from_be-be_bytes, length-be_bytes}
use omemfs.Object.Digest.Canonical.{IsHash}
use omemfs.StatCache.Times.{ℤ, pos, negsuc, as_i64}
use omemfs.StatCache.{StatCacheEntry}
use omemfs.StatCache.Format.{flags_of, i64_bytes, entry_bytes, u32_at, parse_entry}

-- A number that 64 bits hold.
abbrev pub IsI64 : ℤ → Type 0
IsI64 (pos n) = n < 2 ^ 63
IsI64 (negsuc n) = n < 2 ^ 63

-- The fields are words of their widths.
pub record FitsRow (entry : StatCacheEntry) : Type 0 where
  pub secs_i64 : IsI64 entry.mtime_secs
  pub nanos_u32 : entry.mtime_nanos < 2 ^ 32
  pub size_u64 : entry.fs_size < 2 ^ 64
  pub hash_32 : IsHash entry.hash

i64_bytes-as_i64 : (z : ℤ) → IsI64 z → as_i64 (from_be (i64_bytes z)) ≡ z
unfolding i64_bytes as_i64
i64_bytes-as_i64 (pos n) h = rw (from_be-be_bytes 8 n (omega arith)) (ground arith)
i64_bytes-as_i64 (negsuc n) h =
    rw (from_be-be_bytes 8 (2 ^ 64 - 1 - n) (omega arith)) (ground arith)

length-i64_bytes : (z : ℤ) → length (i64_bytes z) ≡ 8
unfolding i64_bytes
length-i64_bytes (pos n) = length-be_bytes 8 n
length-i64_bytes (negsuc n) = length-be_bytes 8 (2 ^ 64 - 1 - n)

pub u32_at-be_bytes :
    (bytes : Bytes) (off v : ℕ) (rest : Bytes)
    → drop off bytes ≡ be_bytes 4 v ++ rest
    → v < 2 ^ 32
    → u32_at bytes off ≡ v
unfolding u32_at
u32_at-be_bytes bytes off v rest h small =
    rw (h, take_front 4 (be_bytes 4 v) rest (length-be_bytes 4 v))
      (from_be-be_bytes 4 v (omega arith))

flags_read :
    (entry : StatCacheEntry)
    → (not (bit_and (flags_of entry) 1 == 0) ≡ entry.is_unsafe)
      × (not (bit_and (flags_of entry) 2 == 0) ≡ entry.sealed)
      × (flags_of entry < 2 ^ 32)
unfolding flags_of
flags_read entry = elim (Bool-cases entry.is_unsafe) [
  | inl u ↦ elim (Bool-cases entry.sealed) [
    | inl s ↦ rw (u, s) (refl, refl, omega arith)
    | inr s ↦ rw (u, s) (refl, refl, omega arith)
  ]
  | inr u ↦ elim (Bool-cases entry.sealed) [
    | inl s ↦ rw (u, s) (refl, refl, omega arith)
    | inr s ↦ rw (u, s) (refl, refl, omega arith)
  ]
]

pub length-entry_bytes : (entry : StatCacheEntry) → FitsRow entry → length (entry_bytes entry) ≡ 56
unfolding entry_bytes
length-entry_bytes entry fits =
    let secs = i64_bytes entry.mtime_secs in
    let nanos = be_bytes 4 entry.mtime_nanos in
    let size = be_bytes 8 entry.fs_size in
    let flags = be_bytes 4 (flags_of entry) in
    omega (
      arith,
      length-append secs (nanos ++ (size ++ (entry.hash.bytes ++ flags))),
      length-append nanos (size ++ (entry.hash.bytes ++ flags)),
      length-append size (entry.hash.bytes ++ flags),
      length-append entry.hash.bytes flags,
      length-i64_bytes entry.mtime_secs,
      length-be_bytes 4 entry.mtime_nanos,
      length-be_bytes 8 entry.fs_size,
      fits.hash_32.1,
      length-be_bytes 4 (flags_of entry),
    )

-- Five fields of a row, each taken at its place.
abbrev row : (a b c h f rest : Bytes) → Bytes
row a b c h f rest = a ++ (b ++ (c ++ (h ++ (f ++ rest))))

module _ (a b c h f rest : Bytes) (a_8 : length a ≡ 8) (b_4 : length b ≡ 4) (c_8 : length c ≡ 8)
    (h_32 : length h ≡ 32) (f_4 : length f ≡ 4) where
  fields :
      (take 8 (row a b c h f rest) ≡ a)
      × (take 4 (drop 8 (row a b c h f rest)) ≡ b)
      × (take 8 (drop 12 (row a b c h f rest)) ≡ c)
      × (take 32 (drop 20 (row a b c h f rest)) ≡ h)
      × (take 4 (drop 52 (row a b c h f rest)) ≡ f)
  fields =
      let at_b = drop_front 8 a (b ++ (c ++ (h ++ (f ++ rest)))) a_8 in
      let at_c =
        drop_past 8 4 a (b ++ (c ++ (h ++ (f ++ rest)))) a_8
        ∙ drop_front 4 b (c ++ (h ++ (f ++ rest))) b_4 in
      let at_h =
        drop_past 8 12 a (b ++ (c ++ (h ++ (f ++ rest)))) a_8
        ∙ drop_past 4 8 b (c ++ (h ++ (f ++ rest))) b_4
        ∙ drop_front 8 c (h ++ (f ++ rest)) c_8 in
      let at_f =
        drop_past 8 44 a (b ++ (c ++ (h ++ (f ++ rest)))) a_8
        ∙ drop_past 4 40 b (c ++ (h ++ (f ++ rest))) b_4
        ∙ drop_past 8 32 c (h ++ (f ++ rest)) c_8
        ∙ drop_front 32 h (f ++ rest) h_32 in
      (
        take_front 8 a (b ++ (c ++ (h ++ (f ++ rest)))) a_8,
        ap (take 4) at_b ∙ take_front 4 b (c ++ (h ++ (f ++ rest))) b_4,
        ap (take 8) at_c ∙ take_front 8 c (h ++ (f ++ rest)) c_8,
        ap (take 32) at_h ∙ take_front 32 h (f ++ rest) h_32,
        ap (take 4) at_f ∙ take_front 4 f rest f_4,
      )

entry_bytes-row :
    (entry : StatCacheEntry) (rest : Bytes)
    → entry_bytes entry ++ rest
      ≡ row
          (i64_bytes entry.mtime_secs)
          (be_bytes 4 entry.mtime_nanos)
          (be_bytes 8 entry.fs_size)
          entry.hash.bytes
          (be_bytes 4 (flags_of entry))
          rest
unfolding entry_bytes
entry_bytes-row entry rest =
    let secs = i64_bytes entry.mtime_secs in
    let nanos = be_bytes 4 entry.mtime_nanos in
    let size = be_bytes 8 entry.fs_size in
    let flags = be_bytes 4 (flags_of entry) in
    append_assoc secs (nanos ++ (size ++ (entry.hash.bytes ++ flags))) rest
    ∙ ap (λ t. secs ++ t)
        (append_assoc nanos (size ++ (entry.hash.bytes ++ flags)) rest
          ∙ ap (λ t. nanos ++ t)
              (append_assoc size (entry.hash.bytes ++ flags) rest
                ∙ ap (λ t. size ++ t) (append_assoc entry.hash.bytes flags rest)))

-- A row reads back as its entry.
pub parse_entry-entry_bytes :
    (entry : StatCacheEntry) (rest : Bytes)
    → FitsRow entry
    → parse_entry (entry_bytes entry ++ rest) ≡ entry
unfolding parse_entry
parse_entry-entry_bytes entry rest fits =
    let (secs, nanos, size, hash, flags) =
      fields (i64_bytes entry.mtime_secs) (be_bytes 4 entry.mtime_nanos) (be_bytes 8 entry.fs_size)
        entry.hash.bytes (be_bytes 4 (flags_of entry)) rest (length-i64_bytes entry.mtime_secs)
        (length-be_bytes 4 entry.mtime_nanos) (length-be_bytes 8 entry.fs_size) fits.hash_32.1
        (length-be_bytes 4 (flags_of entry)) in
    let (unsafe_bit, sealed_bit, small) = flags_read entry in
    ap parse_entry (entry_bytes-row entry rest)
    ∙ rw
        (
          parse_entry,
          secs,
          nanos,
          size,
          hash,
          flags,
          i64_bytes-as_i64 entry.mtime_secs fits.secs_i64,
          from_be-be_bytes 4 entry.mtime_nanos (omega (arith, fits.nanos_u32)),
          from_be-be_bytes 8 entry.fs_size (omega (arith, fits.size_u64)),
          sym fits.hash_32.0,
          from_be-be_bytes 4 (flags_of entry) (omega (arith, small)),
          unsafe_bit,
          sealed_bit,
        )
        refl
