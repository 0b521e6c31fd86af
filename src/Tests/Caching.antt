-- ===== src/Tests/Caching.antt =====
-- The stat cache.
use omemfs.Prelude.{
  ℕ, zero, suc, All, ◌≡◌, refl, ◌+◌, ◌<◌, ◌^◌, Bool, true, false, [], ◌∷◌, some, if◌then◌else◌,
  replicate, arith,
}
use omemfs.Prelude.Bytes.{Bytes, IsByte, codes, bytes_eq}
use omemfs.Prelude.Errors.{ok}
use omemfs.Prelude.Maps.{get}
use omemfs.Object.Digest.{Digest, from_bytes}
use omemfs.Object.Digest.Canonical.{IsHash}
use omemfs.StatCache.Times.{negsuc, SystemTime, since_epoch}
use omemfs.StatCache.{
  StatCacheEntry, Entries, StatCache, Saved, lookup_current, is_sealed, no_seal_epoch,
}
use omemfs.StatCache.Seals.{
  Probe, sample_verify, compute_seals_trusted, write_readonly_merge, write_scoped_merge,
}
use omemfs.StatCache.Trusted.{compute_seals_trusted_lem}
use omemfs.StatCache.Merged.{
  or_else, unsealed_opt, is_among, DistinctKeys, write_readonly_merge_lem, write_scoped_merge_lem,
}
use omemfs.StatCache.Format.{encode_v1, parse_v1, paths_offset_of, padded, total_path_len}
use omemfs.StatCache.Format.Rows.{FitsRow}
use omemfs.StatCache.Format.Sorted.{parse_v1-encode_v1}

abbrev file_hash : Digest
file_hash = from_bytes (replicate 32 7)

abbrev cached : StatCacheEntry
cached = record {
  mtime_secs = negsuc 4;
  mtime_nanos = 9;
  fs_size = 300;
  hash = file_hash;
  is_unsafe = false;
  sealed = true;
}

abbrev two_files : Entries
two_files = (codes "d/b", cached) ∷ ((codes "a", cached) ∷ [])

abbrev epoch : Bytes
epoch = replicate 16 1

abbrev scanned : StatCache
scanned = record {
  entries = two_files;
  dirty = true;
  seal_epoch = epoch;
  seals_trusted = false;
  needs_new_epoch = false;
  seals_invalidated = true;
  changed = codes "a" ∷ [];
}

abbrev on_disk : Saved
on_disk = record { entries = (codes "c", cached) ∷ []; seal_epoch = replicate 16 2 }

abbrev modified_at : SystemTime
modified_at = since_epoch 1000 5

abbrev all_there : Probe
all_there hash = (true, 1)

compute_seals_trusted_lem_example :
    ((compute_seals_trusted all_there 256 (some epoch) scanned).seals_trusted ≡ true
      → (bytes_eq epoch no_seal_epoch ≡ false)
        × (some epoch ≡ some epoch)
        × (sample_verify all_there 256 two_files ≡ true)
        × ((compute_seals_trusted all_there 256 (some epoch) scanned).entries ≡ two_files))
    × ((compute_seals_trusted all_there 256 (some epoch) scanned).seals_trusted ≡ false
        → ((compute_seals_trusted all_there 256 (some epoch) scanned).seals_invalidated ≡ true)
          × ((path : Bytes)
              → is_sealed path (compute_seals_trusted all_there 256 (some epoch) scanned) ≡ false))
    × ((path : Bytes) (mtime : SystemTime) (size : ℕ)
        → lookup_current (compute_seals_trusted all_there 256 (some epoch) scanned) path mtime size
          ≡ lookup_current scanned path mtime size)
compute_seals_trusted_lem_example = compute_seals_trusted_lem all_there 256 (some epoch) scanned

write_readonly_merge_lem_example :
    (get (codes "a") (write_readonly_merge scanned on_disk).1.entries ≡ (
      if is_among (codes "a") (codes "a" ∷ [])
      then or_else (get (codes "a") two_files) (get (codes "a") on_disk.entries)
      else get (codes "a") on_disk.entries))
    × ((write_readonly_merge scanned on_disk).1.seal_epoch ≡ replicate 16 2)
write_readonly_merge_lem_example = write_readonly_merge_lem scanned on_disk (codes "a")

two_files-DistinctKeys : DistinctKeys two_files
unfolding get bytes_eq
two_files-DistinctKeys = (refl, (refl, tt))

write_scoped_merge_lem_example :
    (get (codes "c") (write_scoped_merge (codes "d") scanned on_disk).1.entries
      ≡ or_else (get (codes "c") two_files) (unsealed_opt (get (codes "c") on_disk.entries)))
    × ((write_scoped_merge (codes "d") scanned on_disk).1.seal_epoch ≡ epoch)
write_scoped_merge_lem_example =
    write_scoped_merge_lem (codes "d") scanned on_disk (codes "c") refl refl two_files-DistinctKeys

abbrev any_text : Bytes → Bool
any_text path = true

replicate-IsByte : (n : ℕ) → All IsByte (replicate n 7)
replicate-IsByte zero = tt
replicate-IsByte (suc n) = (omega arith, replicate-IsByte n)

file_hash-IsHash : IsHash file_hash
unfolding from_bytes
file_hash-IsHash = (refl, refl, replicate-IsByte 32)

cached-FitsRow : FitsRow cached
cached-FitsRow = record {
  secs_i64 = omega arith;
  nanos_u32 = omega arith;
  size_u64 = omega arith;
  hash_32 = file_hash-IsHash;
}

small_file : paths_offset_of two_files + padded (total_path_len two_files) < 2 ^ 32
unfolding padded total_path_len
small_file = omega arith

parse_v1-encode_v1_example :
    (bytes : Bytes) × (saved : Saved) × (encode_v1 two_files epoch ≡ ok bytes)
    × (parse_v1 any_text bytes ≡ some saved)
    × ((path : Bytes) → get path saved.entries ≡ get path two_files)
    × (saved.seal_epoch ≡ epoch)
parse_v1-encode_v1_example =
    parse_v1-encode_v1 any_text two_files epoch two_files-DistinctKeys
      (refl, cached-FitsRow, (refl, cached-FitsRow, tt)) small_file refl
