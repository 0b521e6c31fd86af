-- ===== src/StatCache/Times.antt =====
-- The times of src/stat_cache.rs. A 64-bit signed number is an integer; the times of a file system are
-- far from where its arithmetic would overflow.
use omemfs.Prelude.{ℕ, zero, suc, ◌+◌, ◌-◌, ◌%◌, ◌^◌, Bool, true, false, ltb, ◌==◌, if◌then◌else◌}

pub data ℤ : Type 0 where
  pos : ℕ → ℤ
  negsuc : ℕ → ℤ

unfoldable pub int_eq : ℤ → ℤ → Bool
int_eq (pos a) (pos b) = a == b
int_eq (negsuc a) (negsuc b) = a == b
int_eq _ _ = false

unfoldable pub minus : ℤ → ℤ → ℤ
minus (pos a) (pos b) = if ltb a b then negsuc (b - a - 1) else pos (a - b)
minus (pos a) (negsuc b) = pos (a + b + 1)
minus (negsuc a) (pos b) = negsuc (a + b)
minus (negsuc a) (negsuc b) = if ltb b a then negsuc (a - b - 1) else pos (b - a)

unfoldable pub negate : ℤ → ℤ
negate (pos zero) = pos zero
negate (pos (suc n)) = negsuc n
negate (negsuc n) = pos (suc n)

unfoldable pub is_below : ℤ → ℕ → Bool
is_below (pos a) n = ltb a n
is_below (negsuc a) n = true

-- `secs as i64` of a `u64`
unfoldable pub as_i64 : ℕ → ℤ
as_i64 secs =
    let low = secs % 2 ^ 64 in if ltb low (2 ^ 63) then pos low else negsuc (2 ^ 64 - 1 - low)

-- A `SystemTime` by its distance from the epoch: what `duration_since` returns, or its error holds.
pub data SystemTime : Type 0 where
  since_epoch : (secs nanos : ℕ) → SystemTime
  before_epoch : (secs nanos : ℕ) → SystemTime

unfoldable pub systemtime_to_parts : SystemTime → ℤ × ℕ
unfolding as_i64 negate minus
systemtime_to_parts (since_epoch secs nanos) = (as_i64 secs, nanos)
systemtime_to_parts (before_epoch secs nanos) =
    if nanos == 0
    then (negate (as_i64 secs), 0)
    else (minus (negate (as_i64 secs)) (pos 1), 1000000000 - nanos)

abbrev pub racy_threshold_secs : ℕ
racy_threshold_secs = 3

unfoldable pub is_racily_clean : ℤ → SystemTime → Bool
unfolding is_below minus as_i64
is_racily_clean mtime_secs (before_epoch secs nanos) = true
is_racily_clean mtime_secs (since_epoch secs nanos) =
    is_below (minus (as_i64 secs) mtime_secs) racy_threshold_secs
