-- ===== src/StatCache/Trusted.antt =====
-- When src/stat_cache.rs trusts a cached hash, and a seal.
use omemfs.Prelude.{
  ℕ, ◌≡◌, refl, ap, ◌∙◌, inl, inr, Bool, true, false, not, ◌&&◌, Option, none, some, ◌==◌,
  Bool-cases, Option-cases, arith,
}
use omemfs.Prelude.Bytes.{Bytes, bytes_eq, bytes_eq→eq}
use omemfs.Prelude.Maps.{get, map_values, get-map_values}
use omemfs.Object.Digest.{Digest}
use omemfs.StatCache.Times.{int_eq, SystemTime, since_epoch, systemtime_to_parts}
use omemfs.StatCache.{
  StatCache, is_current, lookup_current_entry, lookup_current, unsealed, clear_all_sealed,
  is_sealed, no_seal_epoch,
}
use omemfs.StatCache.Seals.{Probe, sample_verify, is_marker, withhold, compute_seals_trusted}

-- The file looks the same: its time, to the nanosecond, and its size.
abbrev pub same_stat : SystemTime → ℕ → SystemTime → ℕ → Bool
same_stat mtime fs_size seen_mtime seen_size =
    (fs_size == seen_size)
    && (int_eq (systemtime_to_parts mtime).0 (systemtime_to_parts seen_mtime).0
        && ((systemtime_to_parts mtime).1 == (systemtime_to_parts seen_mtime).1))

-- Seals are withheld: none is left, and every hash is looked up as before.
withhold_lem :
    (needs_new_epoch : Bool) (cache : StatCache) (path : Bytes) (mtime : SystemTime) (size : ℕ)
    → (is_sealed path (withhold needs_new_epoch cache) ≡ false)
      × (lookup_current (withhold needs_new_epoch cache) path mtime size
          ≡ lookup_current cache path mtime size)
unfolding withhold clear_all_sealed is_sealed lookup_current lookup_current_entry is_current
withhold_lem needs_new_epoch cache path mtime size =
    let found = get-map_values unsealed path cache.entries in
    elim (Option-cases (get path cache.entries)) [
      | inl gone ↦
          let at_path : get path (map_values unsealed cache.entries) ≡ none =
            found ∙ rw gone refl in
          (rw (is_sealed, at_path) refl, rw (lookup_current, at_path, gone) refl)
      | inr (entry, there) ↦
          let at_path : get path (map_values unsealed cache.entries) ≡ some (unsealed entry) =
            found ∙ rw there refl in
          (
            rw (is_sealed, at_path) refl,
            rw (lookup_current, at_path, there)
                (elim (Bool-cases (is_current entry mtime size)) [
                  | inl current ↦ rw current refl
                  | inr stale ↦ rw stale refl
                ]),
          )
    ]

epoch_known :
    (cache : StatCache) (marker : Option Bytes)
    → (not (bytes_eq cache.seal_epoch no_seal_epoch) && is_marker marker cache.seal_epoch) ≡ true
    → (bytes_eq cache.seal_epoch no_seal_epoch ≡ false) × (marker ≡ some cache.seal_epoch)
unfolding is_marker
epoch_known cache none h = absurd (ground arith)
epoch_known cache (some m) h =
    (ground arith, ap some (bytes_eq→eq m cache.seal_epoch (ground arith)))

-- If the seals are trusted, the cache has an epoch, the marker holds the same one, the sample held
-- and the entries are unchanged. If they are not, no entry is sealed any more and the cache is
-- marked so for its writing. Every look-up of a hash gives what it gave before.
pub compute_seals_trusted_lem :
    (probe : Probe) (sample_max : ℕ) (marker : Option Bytes) (cache : StatCache)
    → ((compute_seals_trusted probe sample_max marker cache).seals_trusted ≡ true
        → (bytes_eq cache.seal_epoch no_seal_epoch ≡ false)
          × (marker ≡ some cache.seal_epoch)
          × (sample_verify probe sample_max cache.entries ≡ true)
          × ((compute_seals_trusted probe sample_max marker cache).entries ≡ cache.entries))
      × ((compute_seals_trusted probe sample_max marker cache).seals_trusted ≡ false
          → ((compute_seals_trusted probe sample_max marker cache).seals_invalidated ≡ true)
            × ((path : Bytes)
                → is_sealed path (compute_seals_trusted probe sample_max marker cache) ≡ false))
      × ((path : Bytes) (mtime : SystemTime) (size : ℕ)
          → lookup_current (compute_seals_trusted probe sample_max marker cache) path mtime size
            ≡ lookup_current cache path mtime size)
unfolding compute_seals_trusted withhold clear_all_sealed lookup_current lookup_current_entry
compute_seals_trusted_lem probe sample_max marker cache =
    elim (Bool-cases
      (not (bytes_eq cache.seal_epoch no_seal_epoch) && is_marker marker cache.seal_epoch)) [
        | inr unmatched ↦ rw unmatched (
          (λ t. cc),
          (λ f. (refl, λ path. (withhold_lem true cache path (since_epoch 0 0) 0).0)),
          (λ path mtime size. (withhold_lem true cache path mtime size).1),
        )
        | inl matched ↦ elim (Bool-cases (sample_verify probe sample_max cache.entries)) [
          | inr missed ↦
              rw (matched, missed)
                (
                  (λ t. cc),
                  (λ f. (refl, λ path. (withhold_lem false cache path (since_epoch 0 0) 0).0)),
                  (λ path mtime size. (withhold_lem false cache path mtime size).1),
                )
          | inl held ↦
              rw (matched, held)
                (
                  (λ t. (
                    (epoch_known cache marker matched).0,
                    (epoch_known cache marker matched).1,
                    refl,
                    refl,
                  )),
                  (λ f. cc),
                  (λ path mtime size. refl),
                )
        ]
      ]
