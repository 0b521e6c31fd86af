-- ===== src/StatCache/Merged.antt =====
-- What the merging writes of src/stat_cache.rs leave in the file.
use omemfs.Prelude.{
  ◌≡◌, refl, sym, ap, ◌∙◌, ◌⊎◌, inl, inr, Bool, true, false, List, [], ◌∷◌, Option, none, some,
  if◌then◌else◌, is_empty, Bool-cases, Option-cases, any, arith,
}
use omemfs.Prelude.Bytes.{Bytes, bytes_eq, bytes_eq→eq}
use omemfs.Prelude.Maps.{get, insert, get-insert, map_values, get-map_values}
use omemfs.StatCache.{
  StatCacheEntry, Entries, StatCache, Saved, read, write, unsealed, clear_all_sealed,
}
use omemfs.StatCache.Seals.{
  overlay_changed, write_readonly_merge, overlay, merge_base, write_scoped_merge,
}

abbrev pub or_else : Option StatCacheEntry → Option StatCacheEntry → Option StatCacheEntry
or_else none other = other
or_else (some entry) other = some entry

abbrev pub is_among : Bytes → List Bytes → Bool
is_among path paths = any (λ p. bytes_eq p path) paths

-- Each entry under a key of its own.
abbrev pub DistinctKeys : Entries → Type 0
DistinctKeys [] = Unit
DistinctKeys ((key, entry) ∷ entries) = (get key entries ≡ none) × DistinctKeys entries

get-overlay_changed :
    (path : Bytes) (changed : List Bytes) (entries fresh : Entries)
    → get path (overlay_changed changed entries fresh) ≡ (
        if is_among path changed
        then or_else (get path entries) (get path fresh)
        else get path fresh)
unfolding overlay_changed
get-overlay_changed path [] entries fresh = refl
get-overlay_changed path (q ∷ changed) entries fresh = elim (Option-cases (get q entries)) [
  | inl gone ↦
      rw (overlay_changed, gone)
        (get-overlay_changed path changed entries fresh ∙ elim (Bool-cases (bytes_eq q path)) [
          | inl same ↦
              let here = ap (λ k. get k entries) (sym (bytes_eq→eq q path same)) ∙ gone in
              rw (same, here) (ground arith)
          | inr differs ↦ rw differs refl
        ])
  | inr (entry, there) ↦
      rw (overlay_changed, there)
        (get-overlay_changed path changed entries (insert q entry fresh)
          ∙ rw (get-insert path q entry fresh) (elim (Bool-cases (bytes_eq q path)) [
            | inl same ↦
                let here = ap (λ k. get k entries) (sym (bytes_eq→eq q path same)) ∙ there in
                rw (same, here) (ground arith)
            | inr differs ↦ rw differs refl
          ]))
]

pub get-overlay :
    (path : Bytes) (entries full : Entries)
    → DistinctKeys entries
    → get path (overlay entries full) ≡ or_else (get path entries) (get path full)
unfolding overlay get
get-overlay path [] full d = refl
get-overlay path ((key, entry) ∷ entries) full d =
    get-overlay path entries (insert key entry full) d.1
    ∙ rw (get-insert path key entry full) (elim (Bool-cases (bytes_eq key path)) [
      | inl same ↦
          let gone = ap (λ k. get k entries) (sym (bytes_eq→eq key path same)) ∙ d.0 in
          rw (same, gone) refl
      | inr differs ↦ rw differs refl
    ])

changed_cases : (changed : List Bytes) → (changed ≡ []) ⊎ (is_empty changed ≡ false)
changed_cases [] = inl refl
changed_cases (path ∷ changed) = inr refl

-- After the write-back of a read-only scan a path that the scan changed has the scan's entry if the
-- scan has one, every other path the entry that the file had, and the file its own epoch.
pub write_readonly_merge_lem :
    (cache : StatCache) (saved : Saved) (path : Bytes)
    → (get path (write_readonly_merge cache saved).1.entries ≡ (
        if is_among path cache.changed
        then or_else (get path cache.entries) (get path saved.entries)
        else get path saved.entries))
      × ((write_readonly_merge cache saved).1.seal_epoch ≡ saved.seal_epoch)
unfolding write_readonly_merge write read
write_readonly_merge_lem cache saved path = elim (changed_cases cache.changed) [
  | inl none_changed ↦ rw none_changed (refl, refl)
  | inr some_changed ↦
      rw some_changed (get-overlay_changed path cache.changed cache.entries saved.entries, refl)
]

abbrev pub unsealed_opt : Option StatCacheEntry → Option StatCacheEntry
unsealed_opt none = none
unsealed_opt (some entry) = some (unsealed entry)

-- After the write-back of a changed cache of a part of the tree, with one entry for each path: a
-- path has the cache's entry if there is one, and otherwise the file's, without its seal exactly if
-- the cache found the seals invalid; then the epoch is the cache's, otherwise the file's.
pub write_scoped_merge_lem :
    (scope_prefix : Bytes) (cache : StatCache) (saved : Saved) (path : Bytes)
    → is_empty scope_prefix ≡ false
    → cache.dirty ≡ true
    → DistinctKeys cache.entries
    → (get path (write_scoped_merge scope_prefix cache saved).1.entries
        ≡ or_else (get path cache.entries) (
            if cache.seals_invalidated
            then unsealed_opt (get path saved.entries)
            else get path saved.entries))
      × ((write_scoped_merge scope_prefix cache saved).1.seal_epoch
          ≡ (if cache.seals_invalidated then cache.seal_epoch else saved.seal_epoch))
unfolding write_scoped_merge merge_base write read clear_all_sealed
write_scoped_merge_lem scope_prefix cache saved path p d keys =
    elim (Bool-cases cache.seals_invalidated) [
      | inl invalid ↦
          rw (p, d, invalid)
            (
              get-overlay path cache.entries (map_values unsealed saved.entries) keys
                  ∙ ap (or_else (get path cache.entries))
                      (get-map_values unsealed path saved.entries),
              refl,
            )
      | inr valid ↦ rw (p, d, valid) (get-overlay path cache.entries saved.entries keys, refl)
    ]
