-- ===== src/Lib.antt =====
-- omemfs: a content-addressed store of directory trees, with encrypted remotes and a two-way sync.
--
-- A tree is an object that lists its entries by name, each with the hash of its own object;
-- objects are compressed, encrypted and packed; packs are found through Bloom filters and sorted
-- indexes, and the root of the indexes is one pointer that is replaced by compare-and-swap. A pull
-- compares trees, decides what conflicts, and merges line histories. The files follow these parts:
--
-- Object/Digest is `Hash` of src/object.rs, Object/Tags its type tags and the bytes of blobs,
-- chunks and manifests, Object/Names its check on entry names, Object/Entry its entries, their
-- order and the sums over them. Base32 is src/base32.rs. Trees/Store is the object store as a
-- function from hashes to decoded bytes, and the steps on it; Trees/Read and Trees/Change are the
-- reading, navigation, splicing and removal of src/tree_ops.rs, and Trees/Flatten its flatten
-- functions, which are walks (Trees/Walk) down a tree. Chunks is the reading side of
-- src/codec/chunk.rs. Codec is src/codec/compress.rs, src/codec/encrypt.rs and the encoding of
-- src/codec/mod.rs. Pack/Bloom, Pack/Index, Pack/IndexRoot and Pack/RootPointer are the files of
-- src/codec/pack of these names, and Pack/RootPointer/Runs has many writers on one pointer. LineMerge is src/line_merge.rs, Escape is src/term/escape.rs.
-- Pull is the conflict classification and the line merge resolution of src/commands/pull.rs, which
-- uses Chunks, Trees and LineMerge: Pull/Decisions describes a conflict and a clean merge by what the
-- two sides did to a path. Pull/Diff is its `diff_trees`, whose loops and arms have their
-- lemmas in the modules below it. Filter is src/filter.rs, with
-- `glob_match` in Filter/Glob. StatCache is src/stat_cache.rs: the cache itself, its times, the
-- seals and merging writes (StatCache/Seals) and the file (StatCache/Format). Prelude has the shared lists, bytes, words and results; Tests
-- runs the theorems at concrete inputs.
--
-- A byte is a number below 256 where a theorem needs it, a text its list of bytes, and a time its
-- distance in nanoseconds from the earliest one. Words keep their widths: a filter's counts wrap
-- at 2^64, an index's fields at 2^32, the length of inline data at 256. Errors keep their kinds
-- and lose their messages. What a failed step has stored stays stored. A `HashMap` is an
-- association list. The capacity ladder of the filters has 20 rounds of fuel: its power of ten is
-- past 2^64 by then. The walks down a tree follow hashes through a store, whose trees the model
-- does not bound, so they have fuel as well and say whether it was enough: more than the depth
-- of the trees is.
--
-- Parameters stand for code of other packages: SHA-256, the JSON of serde, zstd, AES-GCM, the
-- Myers diff of similar, the check of a path for UTF-8, and the floating-point size of a filter. The
-- outcome of a probe of the store for a sampled blob is an argument of the sampling. The theorems that need it assume
-- that SHA-256 does not collide, that entries read back from their JSON, that zstd gives back what
-- it compressed, and that AES-GCM opens what it sealed and adds 16 bytes.
--
-- Not modelled: the file system and cloud backends, locks, terminal output and progress, the
-- command line, the collection of filter files, the scoped read of the stat cache's file, the
-- application of a diff to the working tree, and the writing of packs.
pub mod Prelude
pub mod Base32
pub mod Chunks
pub mod Codec
pub mod Escape
pub mod Filter
pub mod LineMerge
pub mod Object
pub mod Pack
pub mod Pull
pub mod StatCache
pub mod Tests
pub mod Trees
