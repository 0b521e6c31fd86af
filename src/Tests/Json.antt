-- ===== src/Tests/Json.antt =====
-- A writer and a reader of lists of entries, to stand for serde, and the identity for SHA-256.
use omemfs.Prelude.{
  ℕ, zero, suc, ◌≡◌, refl, List, [], ◌∷◌, ◌++◌, Option, none, some, length, take, drop, take-append,
  drop-append,
}
use omemfs.Prelude.Bytes.{Bytes}
use omemfs.Prelude.Options.{◌>>=◌}
use omemfs.Object.Digest.{Digest}
use omemfs.Object.Entry.{TreeEntry, blob, tree, symlink}
use omemfs.Trees.Change.Stored.{IsFaithful}

abbrev pub identity : Bytes → Bytes
identity content = content

put_bytes : Bytes → Bytes → Bytes
put_bytes b rest = length b ∷ (b ++ rest)

get_bytes : Bytes → Option (Bytes × Bytes)
get_bytes [] = none
get_bytes (n ∷ rest) = some (take n rest, drop n rest)

put_time : Option ℕ → Bytes → Bytes
put_time none rest = 0 ∷ rest
put_time (some t) rest = 1 ∷ (t ∷ rest)

get_time : Bytes → Option (Option ℕ × Bytes)
get_time (zero ∷ rest) = some (none, rest)
get_time (suc zero ∷ (t ∷ rest)) = some (some t, rest)
get_time _ = none

put_mode : Option Bytes → Bytes → Bytes
put_mode none rest = 0 ∷ rest
put_mode (some b) rest = 1 ∷ put_bytes b rest

get_mode : Bytes → Option (Option Bytes × Bytes)
get_mode (zero ∷ rest) = some (none, rest)
get_mode (suc zero ∷ rest) = do (b, rest') ← get_bytes rest; some (some b, rest')
get_mode _ = none

put_digest : Digest → Bytes → Bytes
put_digest d rest = put_bytes d.hex (put_bytes d.bytes rest)

get_digest : Bytes → Option (Digest × Bytes)
get_digest input = do
  (hex, rest) ← get_bytes input
  (bytes, rest') ← get_bytes rest
  some (record { hex = hex; bytes = bytes }, rest')

put_entry : TreeEntry → Bytes → Bytes
put_entry (blob name hash mtime size mode) rest =
    0 ∷ put_bytes name (put_digest hash (put_time mtime (size ∷ put_mode mode rest)))
put_entry (tree name hash mtime size blob_count) rest =
    1 ∷ put_bytes name (put_digest hash (put_time mtime (size ∷ (blob_count ∷ rest))))
put_entry (symlink name target mtime) rest =
    2 ∷ put_bytes name (put_bytes target (put_time mtime rest))

get_sizes : Bytes → Option (ℕ × Bytes)
get_sizes [] = none
get_sizes (n ∷ rest) = some (n, rest)

get_entry : Bytes → Option (TreeEntry × Bytes)
get_entry (zero ∷ input) = do
  (name, a) ← get_bytes input
  (hash, b) ← get_digest a
  (mtime, c) ← get_time b
  (size, d) ← get_sizes c
  (mode, rest) ← get_mode d
  some (blob name hash mtime size mode, rest)
get_entry (suc zero ∷ input) = do
  (name, a) ← get_bytes input
  (hash, b) ← get_digest a
  (mtime, c) ← get_time b
  (size, d) ← get_sizes c
  (blob_count, rest) ← get_sizes d
  some (tree name hash mtime size blob_count, rest)
get_entry (suc (suc zero) ∷ input) = do
  (name, a) ← get_bytes input
  (target, b) ← get_bytes a
  (mtime, rest) ← get_time b
  some (symlink name target mtime, rest)
get_entry _ = none

put_entries : List TreeEntry → Bytes
put_entries [] = []
put_entries (e ∷ es) = put_entry e (put_entries es)

get_entries : ℕ → Bytes → Option (List TreeEntry)
get_entries zero input = some []
get_entries (suc n) input = do (e, rest) ← get_entry input; es ← get_entries n rest; some (e ∷ es)

pub to_json : List TreeEntry → Bytes
to_json es = length es ∷ put_entries es

pub from_json : Bytes → Option (List TreeEntry)
from_json [] = none
from_json (n ∷ input) = get_entries n input

get-put_bytes : (b rest : Bytes) → get_bytes (put_bytes b rest) ≡ some (b, rest)
unfolding get_bytes put_bytes
get-put_bytes b rest = rw (take-append b rest, drop-append b rest)

get-put_time : (t : Option ℕ) (rest : Bytes) → get_time (put_time t rest) ≡ some (t, rest)
unfolding get_time put_time
get-put_time none rest = refl
get-put_time (some t) rest = refl

get-put_mode : (m : Option Bytes) (rest : Bytes) → get_mode (put_mode m rest) ≡ some (m, rest)
unfolding get_mode put_mode
get-put_mode none rest = refl
get-put_mode (some b) rest = rw (get-put_bytes b rest)

get-put_digest : (d : Digest) (rest : Bytes) → get_digest (put_digest d rest) ≡ some (d, rest)
unfolding get_digest put_digest
get-put_digest d rest =
    rw (get-put_bytes d.hex (put_bytes d.bytes rest), get-put_bytes d.bytes rest)

get-put_entry : (e : TreeEntry) (rest : Bytes) → get_entry (put_entry e rest) ≡ some (e, rest)
unfolding get_entry put_entry get_sizes
get-put_entry (blob name hash mtime size mode) rest =
    let d = size ∷ put_mode mode rest in
    rw (
      get-put_bytes name (put_digest hash (put_time mtime d)),
      get-put_digest hash (put_time mtime d),
      get-put_time mtime d,
      get-put_mode mode rest,
    )
get-put_entry (tree name hash mtime size blob_count) rest =
    let d = size ∷ (blob_count ∷ rest) in
    rw (
      get-put_bytes name (put_digest hash (put_time mtime d)),
      get-put_digest hash (put_time mtime d),
      get-put_time mtime d,
    )
get-put_entry (symlink name target mtime) rest = rw (
  get-put_bytes name (put_bytes target (put_time mtime rest)),
  get-put_bytes target (put_time mtime rest),
  get-put_time mtime rest,
)

get-put_entries : (es : List TreeEntry) → get_entries (length es) (put_entries es) ≡ some es
unfolding get_entries put_entries
get-put_entries [] = refl
get-put_entries (e ∷ es) = rw (get-put_entry e (put_entries es), get-put_entries es)

from-to_json : (es : List TreeEntry) → from_json (to_json es) ≡ some es
unfolding from_json to_json
from-to_json es = get-put_entries es

pub faithful : IsFaithful identity to_json from_json
faithful = record { injective = λ a b e. e; parses = from-to_json }
