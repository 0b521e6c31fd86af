-- ===== src/StatCache/Sampled.antt =====
-- The indices that `sample_verify` of src/stat_cache.rs takes.
