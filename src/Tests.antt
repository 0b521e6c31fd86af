-- ===== src/Tests.antt =====
-- The theorems at concrete inputs, and concrete functions for the parameters of the model.
mod Json
mod Trees
mod Merging
mod Packs
mod Objects
mod Display
mod Roots
mod Syncing
mod Caching
mod Diffs
