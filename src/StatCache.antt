-- ===== src/StatCache.antt =====
-- src/stat_cache.rs: hashes of files by path, trusted while a file's time and size are the recorded
-- ones. A `HashMap` is an association list, a `HashSet` a list.
pub mod Format
pub mod Times
pub mod Seals
pub mod Trusted
pub mod Merged
pub mod Sampled
use omemfs.Prelude.{
  ℕ, zero, suc, ◌+◌, ◌-◌, ◌*◌, ◌/◌, Bool, true, false, not, ◌&&◌, ◌||◌, List, [], ◌∷◌, Option, none,
  some, ◌==◌, leb, if◌then◌else◌, any, length, min, get_elem?, is_empty,
}
use omemfs.Prelude.Bytes.{Bytes, bytes_eq}
use omemfs.Prelude.Maps.{get, insert, remove, map_values}
use omemfs.Prelude.Options.{◌>>=◌}
use omemfs.Object.Digest.{Digest, digest_eq}
use omemfs.Pull.{sort_paths}
use omemfs.StatCache.Times.{ℤ, int_eq, SystemTime, systemtime_to_parts, is_racily_clean}

pub record StatCacheEntry : Type 0 where
  pub mtime_secs : ℤ
  pub mtime_nanos : ℕ
  pub fs_size : ℕ
  pub hash : Digest
  pub is_unsafe : Bool
  pub sealed : Bool

abbrev pub Entries : Type 0
Entries = List (Bytes × StatCacheEntry)

pub record StatCache : Type 0 where
  pub entries : Entries
  pub dirty : Bool
  pub seal_epoch : Bytes
  pub seals_trusted : Bool
  pub needs_new_epoch : Bool
  pub seals_invalidated : Bool
  pub changed : List Bytes

-- `NO_SEAL_EPOCH`
abbrev pub no_seal_epoch : Bytes
no_seal_epoch = 0 ∷ (0 ∷ (0 ∷ (0 ∷ (0 ∷ (0 ∷ (0 ∷ (0 ∷ eight_zeros)))))))
  where
    eight_zeros : Bytes
    eight_zeros = 0 ∷ (0 ∷ (0 ∷ (0 ∷ (0 ∷ (0 ∷ (0 ∷ (0 ∷ [])))))))

-- What a file holds, and the cache that `read` makes of it.
pub record Saved : Type 0 where
  pub entries : Entries
  pub seal_epoch : Bytes

unfoldable pub read : Saved → StatCache
read saved = record {
  entries = saved.entries;
  dirty = false;
  seal_epoch = saved.seal_epoch;
  seals_trusted = false;
  needs_new_epoch = false;
  seals_invalidated = false;
  changed = [];
}

-- `write`: what the file holds then, and the cache. The bytes of the file, and the overflow that
-- `encode_v1` refuses, are in StatCache/Format.
unfoldable pub write : StatCache → Saved × StatCache
write cache = (
  record { entries = cache.entries; seal_epoch = cache.seal_epoch },
  record cache { dirty = false },
)

-- `write_if_dirty`: whether the file was written, what it holds then, and the cache.
unfoldable pub write_if_dirty : StatCache → Saved → Bool × Saved × StatCache
unfolding write
write_if_dirty cache saved =
    if not cache.dirty then (false, saved, cache) else (true, (write cache).0, (write cache).1)

unfoldable pub entry_eq : StatCacheEntry → StatCacheEntry → Bool
unfolding int_eq digest_eq
entry_eq a b =
    int_eq a.mtime_secs b.mtime_secs
    && ((a.mtime_nanos == b.mtime_nanos)
        && ((a.fs_size == b.fs_size)
            && (digest_eq a.hash b.hash
                && (same_flag a.is_unsafe b.is_unsafe && same_flag a.sealed b.sealed))))
  where
    same_flag : Bool → Bool → Bool
    same_flag true b = b
    same_flag false b = not b

-- `changed.insert(path)`
unfoldable pub note_changed : Bytes → List Bytes → List Bytes
note_changed path changed = if any (λ p. bytes_eq p path) changed then changed else path ∷ changed

-- The tests of `lookup_current_entry` on an entry that is there.
unfoldable pub is_current : StatCacheEntry → SystemTime → ℕ → Bool
unfolding int_eq systemtime_to_parts
is_current entry mtime fs_size =
    not entry.is_unsafe
    && ((entry.fs_size == fs_size)
        && (int_eq entry.mtime_secs (systemtime_to_parts mtime).0
            && (entry.mtime_nanos == (systemtime_to_parts mtime).1)))

unfoldable pub lookup_current_entry : StatCache → Bytes → SystemTime → ℕ → Option StatCacheEntry
unfolding is_current get
lookup_current_entry cache path mtime fs_size = do
  entry ← get path cache.entries
  if is_current entry mtime fs_size then some entry else none

unfoldable pub lookup_current : StatCache → Bytes → SystemTime → ℕ → Option Digest
unfolding lookup_current_entry
lookup_current cache path mtime fs_size = do
  entry ← lookup_current_entry cache path mtime fs_size
  some entry.hash

-- The entry that `update` makes.
unfoldable pub new_entry : SystemTime → ℕ → Digest → Bool → SystemTime → StatCacheEntry
unfolding systemtime_to_parts is_racily_clean
new_entry mtime fs_size hash sealed observed_at = record {
  mtime_secs = (systemtime_to_parts mtime).0;
  mtime_nanos = (systemtime_to_parts mtime).1;
  fs_size = fs_size;
  hash = hash;
  is_unsafe = is_racily_clean (systemtime_to_parts mtime).0 observed_at;
  sealed = sealed;
}

-- Whether an entry differs from what is there.
unfoldable pub is_changed : Option StatCacheEntry → StatCacheEntry → Bool
unfolding entry_eq
is_changed none entry = true
is_changed (some existing) entry = not (entry_eq existing entry)

unfoldable pub put_entry : Bytes → StatCacheEntry → StatCache → StatCache
unfolding is_changed note_changed insert get
put_entry path entry cache = record cache {
  entries = insert path entry cache.entries;
  dirty = is_changed (get path cache.entries) entry || cache.dirty;
  changed =
      if is_changed (get path cache.entries) entry
      then note_changed path cache.changed
      else cache.changed;
}

unfoldable pub update : Bytes → SystemTime → ℕ → Digest → Bool → SystemTime → StatCache → StatCache
unfolding put_entry new_entry
update path mtime fs_size hash sealed observed_at cache =
    put_entry path (new_entry mtime fs_size hash sealed observed_at) cache

abbrev pub unsealed : StatCacheEntry → StatCacheEntry
unsealed entry = record entry { sealed = false }

-- `mark_sealed`: whether the bit was set, and the cache.
unfoldable pub mark_sealed : Bytes → StatCache → Bool × StatCache
unfolding note_changed insert get
mark_sealed path cache = elim (get path cache.entries) [
  | none ↦ (false, cache)
  | some entry ↦ if entry.sealed then (false, cache) else (
    true,
    record cache {
      entries = insert path (record entry { sealed = true }) cache.entries;
      dirty = true;
      changed = note_changed path cache.changed;
    },
  )
]

-- `clear_all_sealed`: whether a bit was cleared, and the cache.
unfoldable pub clear_all_sealed : StatCache → Bool × StatCache
clear_all_sealed cache =
    let found = any (λ e. e.1.sealed) cache.entries in
    (
      found,
      record cache { entries = map_values unsealed cache.entries; dirty = found || cache.dirty },
    )

unfoldable pub remove_entry : Bytes → StatCache → StatCache
unfolding remove get
remove_entry path cache = record cache {
  entries = remove path cache.entries;
  dirty = elim (get path cache.entries) [ none ↦ cache.dirty | some _ ↦ true ];
}

unfoldable pub is_sealed : Bytes → StatCache → Bool
unfolding get
is_sealed path cache = elim (get path cache.entries) [ none ↦ false | some entry ↦ entry.sealed ]
