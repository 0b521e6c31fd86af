-- ===== src/Pull/Diff/Deleted.antt =====
-- The paths that `diff_trees` of src/commands/pull.rs reports where the whole target is absent.
use omemfs.Prelude.{
  ℕ, zero, suc, ◌≡◌, refl, sym, ap, ◌∙◌, inl, inr, List, [], ◌∷◌, Option, none, some,
}
use omemfs.Prelude.Bytes.{Bytes}
use omemfs.Prelude.Errors.{Result-cases}
use omemfs.Prelude.Maps.{insert, map_values, map_values-insert}
use omemfs.Object.Digest.{Digest}
use omemfs.Object.Entry.{TreeEntry, blob, tree, symlink}
use omemfs.Object.Names.Paths.{join_path}
use omemfs.Trees.Store.{Store}
use omemfs.Trees.Read.{read_tree}
use omemfs.Trees.Walk.{Walk, out_of_fuel, failed, done, ◌>>=◌}
use omemfs.Trees.Flatten.{Flat, Below, flatten_entries, flatten_into, flatten_tree_entries}
use omemfs.Pull.{Diff, deleted}
use omemfs.Pull.Diff.{Mark, mark_deleted_entries, mark_deleted_tree, diff_trees}

-- Every path of a map reported as deleted.
abbrev pub all_deleted : Flat → Diff
all_deleted = map_values (λ _. deleted)

abbrev pub deletes : Walk Flat → Walk Diff
deletes w = do flat ← w; done (all_deleted flat)

deletes-bind :
    (w : Walk Flat) (next : Diff → Walk Diff) (step : Flat → Walk Flat)
    → ((out : Flat) → next (all_deleted out) ≡ deletes (step out))
    → (deletes w >>= next) ≡ deletes (w >>= step)
deletes-bind out_of_fuel next step h = refl
deletes-bind (failed e) next step h = refl
deletes-bind (done out) next step h = h out

mark_deleted_entries-flatten :
    (mark : Mark) (below : Below)
    → ((hash : Digest) (path : Bytes) (out : Flat)
        → mark hash path (all_deleted out) ≡ deletes (below hash path out))
    → (prefix : Bytes) (entries : List TreeEntry) (out : Flat)
    → mark_deleted_entries mark prefix entries (all_deleted out)
      ≡ deletes (flatten_entries below prefix entries out)
unfolding mark_deleted_entries flatten_entries
mark_deleted_entries-flatten mark below h prefix [] out = refl
mark_deleted_entries-flatten mark below h prefix (tree n d m s c ∷ es) out =
    ap (λ w. w >>= λ inner. mark_deleted_entries mark prefix es inner)
      (h d (join_path prefix n) out)
    ∙ deletes-bind (below d (join_path prefix n) out)
        (λ inner. mark_deleted_entries mark prefix es inner)
        (λ inner. flatten_entries below prefix es inner)
        (mark_deleted_entries-flatten mark below h prefix es)
mark_deleted_entries-flatten mark below h prefix (blob n d m s o ∷ es) out =
    rw (sym (map_values-insert (λ _. deleted) (join_path prefix n) (blob n d m s o) out)) (
      mark_deleted_entries-flatten mark below h prefix es
        (insert (join_path prefix n) (blob n d m s o) out))
mark_deleted_entries-flatten mark below h prefix (symlink n t m ∷ es) out =
    rw (sym (map_values-insert (λ _. deleted) (join_path prefix n) (symlink n t m) out)) (
      mark_deleted_entries-flatten mark below h prefix es
        (insert (join_path prefix n) (symlink n t m) out))

module _ (sha256 : Bytes → Bytes) (from_json : Bytes → Option (List TreeEntry)) (s : Store) where
  mark_deleted_tree-flatten :
      (fuel : ℕ) (hash : Digest) (prefix : Bytes) (out : Flat)
      → mark_deleted_tree sha256 from_json fuel s hash prefix (all_deleted out)
        ≡ deletes (flatten_into sha256 from_json fuel s hash prefix out)
  unfolding mark_deleted_tree flatten_into
  mark_deleted_tree-flatten zero hash prefix out = refl
  mark_deleted_tree-flatten (suc fuel) hash prefix out =
      elim (Result-cases (read_tree sha256 from_json s hash)) [
        | inl (e, unread) ↦ rw unread refl
        | inr (entries, reads) ↦ rw reads (
            mark_deleted_entries-flatten (mark_deleted_tree sha256 from_json fuel s)
              (flatten_into sha256 from_json fuel s) (mark_deleted_tree-flatten fuel) prefix entries
              out)
      ]

  -- Where the target is absent as a whole, the diff reports exactly the paths that flattening the
  -- base gives, each as deleted, and it fails or runs out of fuel exactly where that does.
  pub diff_trees-absent :
      (threshold fuel : ℕ) (base : Digest)
      → diff_trees sha256 from_json s threshold fuel (some base) none
        ≡ deletes (flatten_tree_entries sha256 from_json fuel s base)
  unfolding diff_trees flatten_tree_entries
  diff_trees-absent threshold fuel base = mark_deleted_tree-flatten fuel base [] []
