-- ===== src/StatCache/Seals.antt =====
-- Seal trust and the merging writes of src/stat_cache.rs. The marker file, the size of the sample, a
-- fresh random epoch and the outcome of `blob_fully_cached` for a hash, with the probes that it cost,
-- are arguments.
use omemfs.Prelude.{
  ℕ, zero, suc, ◌+◌, ◌-◌, ◌*◌, ◌/◌, Bool, true, false, not, ◌&&◌, List, [], ◌∷◌, Option, none, some,
  ◌==◌, leb, ltb, if◌then◌else◌, length, min, get_elem?, is_empty, filter, map,
}
use omemfs.Prelude.Bytes.{Bytes, bytes_eq}
use omemfs.Prelude.Maps.{get, insert}
use omemfs.Prelude.Options.{◌>>=◌}
use omemfs.Object.Digest.{Digest}
use omemfs.Pull.{sort_paths}
use omemfs.StatCache.{
  Entries, StatCache, Saved, no_seal_epoch, read, write, write_if_dirty, clear_all_sealed,
}

-- `blob_fully_cached(&counter, hash)` and `counter.count()`.
abbrev pub Probe : Type 0
Probe = Digest → Bool × ℕ

-- `idx(k)`
unfoldable pub sample_index : ℕ → ℕ → ℕ → ℕ
sample_index n sample_n k = if sample_n == 1 then 0 else k * (n - 1) / (sample_n - 1)

-- A sampled path: its entry is in the cache.
unfoldable pub sampled_hash : List Bytes → Entries → ℕ → Option Digest
unfolding get
sampled_hash paths entries idx = do
  path ← get_elem? paths idx
  entry ← get path entries
  some entry.hash

-- The loop of `sample_verify`: `left` rounds from `k` on, with the probes spent.
unfoldable pub sample_loop : Probe → ℕ → ℕ → List Bytes → Entries → ℕ → ℕ → ℕ → Bool
unfolding sampled_hash sample_index
sample_loop probe budget sample_n paths entries zero k spent = true
sample_loop probe budget sample_n paths entries (suc left) k spent =
    let skipped = sample_loop probe budget sample_n paths entries left (suc k) spent in
    let probed : Bool =
      (elim (sampled_hash paths entries (sample_index (length paths) sample_n k)) [
        | none ↦ false
        | some hash ↦
            let rest =
              sample_loop probe budget sample_n paths entries left (suc k)
                (spent + (probe hash).1) in
            if (probe hash).0 then rest else false
      ]) in
    if ltb 0 k && leb budget spent then skipped else probed

-- `sealed_paths`, sorted.
unfoldable pub sealed_paths : Entries → List Bytes
unfolding sort_paths
sealed_paths entries = sort_paths (map (λ e. e.0) (filter (λ e. e.1.sealed) entries))

unfoldable pub sample_verify : Probe → ℕ → Entries → Bool
unfolding sample_loop sealed_paths
sample_verify probe sample_max entries =
    if sample_max == 0
    then true
    else if is_empty (sealed_paths entries)
    then true
    else sample_loop probe (8 * sample_max) (min sample_max (length (sealed_paths entries)))
        (sealed_paths entries) entries (min sample_max (length (sealed_paths entries))) 0 0

-- `marker == Some(self.seal_epoch)`
unfoldable pub is_marker : Option Bytes → Bytes → Bool
is_marker none epoch = false
is_marker (some marker) epoch = bytes_eq marker epoch

-- Trust withheld: every seal in sight is cleared.
unfoldable pub withhold : Bool → StatCache → StatCache
unfolding clear_all_sealed
withhold needs_new_epoch cache =
    (clear_all_sealed (record cache {
      seals_trusted = false;
      needs_new_epoch = needs_new_epoch;
      seals_invalidated = true;
    })).1

unfoldable pub compute_seals_trusted : Probe → ℕ → Option Bytes → StatCache → StatCache
unfolding is_marker sample_verify withhold
compute_seals_trusted probe sample_max marker cache =
    if not (not (bytes_eq cache.seal_epoch no_seal_epoch) && is_marker marker cache.seal_epoch)
    then withhold true cache
    else if sample_verify probe sample_max cache.entries
    then record cache { seals_trusted = true; needs_new_epoch = false }
    else withhold false cache

-- `finalize_seal_epoch`: the marker after it, whether or not it could be written, and the cache.
unfoldable pub finalize_seal_epoch :
    Bytes → Bool → Option Bytes → StatCache → Option Bytes × StatCache
finalize_seal_epoch new_epoch marker_written marker cache =
    if not cache.needs_new_epoch then (marker, cache) else (
      if marker_written then some new_epoch else marker,
      record cache { seal_epoch = new_epoch; dirty = true; needs_new_epoch = false },
    )

-- `for path in &self.changed { … }`
unfoldable pub overlay_changed : List Bytes → Entries → Entries → Entries
unfolding get insert
overlay_changed [] entries fresh = fresh
overlay_changed (path ∷ changed) entries fresh = elim (get path entries) [
  | none ↦ overlay_changed changed entries fresh
  | some entry ↦ overlay_changed changed entries (insert path entry fresh)
]

-- `write_readonly_merge`: whether the file was written, what it holds then, and the cache.
unfoldable pub write_readonly_merge : StatCache → Saved → Bool × Saved × StatCache
unfolding overlay_changed read write
write_readonly_merge cache saved = if is_empty cache.changed then (false, saved, cache) else (
  true,
  (write (record (read saved) {
    entries = overlay_changed cache.changed cache.entries saved.entries;
    dirty = true;
  })).0,
  record cache { changed = []; dirty = false },
)

-- `for (path, entry) in &self.entries { … }`
unfoldable pub overlay : Entries → Entries → Entries
unfolding insert
overlay [] full = full
overlay ((path, entry) ∷ entries) full = overlay entries (insert path entry full)

-- The full cache that a scoped write goes onto.
unfoldable pub merge_base : StatCache → Saved → StatCache
unfolding clear_all_sealed read
merge_base cache saved =
    if cache.seals_invalidated
    then record (clear_all_sealed (read saved)).1 { seal_epoch = cache.seal_epoch }
    else read saved

unfoldable pub write_scoped_merge : Bytes → StatCache → Saved → Bool × Saved × StatCache
unfolding write_if_dirty merge_base overlay write
write_scoped_merge scope_prefix cache saved =
    if is_empty scope_prefix
    then write_if_dirty cache saved
    else if not cache.dirty
    then (false, saved, cache)
    else (
      true,
      (write (record (merge_base cache saved) {
        entries = overlay cache.entries (merge_base cache saved).entries;
        dirty = true;
      })).0,
      record cache { dirty = false },
    )
