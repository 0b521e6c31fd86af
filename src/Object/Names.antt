-- ===== src/Object/Names.antt =====
-- Entry names of src/object.rs: the reserved names, and the check on every name of a tree.
pub mod Paths
use omemfs.Prelude.{
  ℕ, Bool, true, false, ◌&&◌, ◌||◌, not, List, [], ◌∷◌, ◌++◌, Option, none, some, ◌==◌,
  if◌then◌else◌, any, is_empty, length, drop, leb, ◌-◌,
}
use omemfs.Prelude.Bytes.{Bytes, codes, bytes_eq, starts_with, contains}
use omemfs.Prelude.Errors.{Result, ok, err, invalid_object, ◌>>=◌, ◌>>◌}

-- `name.ends_with(s)`
unfoldable pub ends_with : Bytes → Bytes → Bool
ends_with name s = leb (length s) (length name) && bytes_eq (drop (length name - length s) name) s

-- `name.contains(c)` for a character below 128
unfoldable pub has_char : ℕ → Bytes → Bool
has_char c name = any (λ b. b == c) name

unfoldable pub is_metadata_dir_name : Bytes → Bool
is_metadata_dir_name name = bytes_eq name (codes ".omemfs")

unfoldable pub is_reserved_name : Bytes → Bool
is_reserved_name name = contains name (codes ".omemfs-")

abbrev pub conflict_suffix_base : Bytes
conflict_suffix_base = codes ".omemfs-conflict-base"

abbrev pub conflict_suffix_local : Bytes
conflict_suffix_local = codes ".omemfs-conflict-local"

abbrev pub conflict_suffix_remote : Bytes
conflict_suffix_remote = codes ".omemfs-conflict-remote"

abbrev pub conflict_meta_suffix : Bytes
conflict_meta_suffix = codes ".omemfs-conflict-meta"

abbrev pub conflict_artifact_suffixes : List Bytes
conflict_artifact_suffixes =
    conflict_suffix_base ∷ conflict_suffix_local ∷ conflict_suffix_remote ∷ conflict_meta_suffix
    ∷ []

unfoldable pub is_conflict_artifact : Bytes → Bool
unfolding ends_with
is_conflict_artifact name = any (ends_with name) conflict_artifact_suffixes

unfoldable pub is_working_tree_tmp : Bytes → Bool
is_working_tree_tmp name = starts_with name (codes ".omemfs-tmp-")

unfoldable pub validate_entry_name : Bytes → Result (Unit {0})
unfolding has_char is_metadata_dir_name is_reserved_name
validate_entry_name name =
    if is_empty name
    then err invalid_object
    else if bytes_eq name (codes ".") || bytes_eq name (codes "..")
    then err invalid_object
    else if has_char b'/' name
    then err invalid_object
    else if has_char 0 name
    then err invalid_object
    else if is_metadata_dir_name name
    then err invalid_object
    else if not (bytes_eq name (codes ".omemfs-filter")) && is_reserved_name name
    then err invalid_object
    else ok tt
