-- ===== src/Pull/Diff/Ends.antt =====
-- Each loop of `diff_recursive` in src/commands/pull.rs ends where the calls in it end.
use omemfs.Prelude.{
  ℕ, Bool, true, false, not, ◌||◌, List, [], ◌∷◌, All, Option, none, some, if◌then◌else◌, any,
}
use omemfs.Prelude.Bytes.{Bytes, bytes_eq}
use omemfs.Prelude.Maps.{insert, AllValues, AllValues-insert}
use omemfs.Object.Digest.{Digest, digest_eq}
use omemfs.Object.Entry.{TreeEntry, blob, tree, symlink, entry_name}
use omemfs.Object.Names.Paths.{join_path}
use omemfs.Trees.Walk.{Walk, out_of_fuel, failed, done, ◌>>=◌, Finishes, EachChild}
use omemfs.Pull.{Diff, modified, deleted, symlinked}
use omemfs.Pull.Diff.{
  Mark, mode_eq, mark_deleted_entries, by_name, diff_blob, diff_symlink, delete_missing, extend,
}

pub Finishes-bind {ℓ κ} :
    {A : Type ℓ} {B : Type κ} (w : Walk A) (next : A → Walk B)
    → Finishes w
    → ((a : A) → Finishes (next a))
    → Finishes (w >>= next)
Finishes-bind out_of_fuel next f h = absurd f
Finishes-bind (failed e) next f h = tt
Finishes-bind (done a) next f h = h a

pub if_Finishes {ℓ} :
    {A : Type ℓ} (b : Bool) (x y : Walk A) → Finishes x → Finishes y → Finishes (if b then x else y)
if_Finishes true x y f g = f
if_Finishes false x y f g = g

-- Marking finishes below a hash.
abbrev pub MarkFinishes : Mark → Digest → Type 0
MarkFinishes mark hash = (path : Bytes) (result : Diff) → Finishes (mark hash path result)

pub mark_deleted_entries-Finishes :
    (mark : Mark) (prefix : Bytes) (entries : List TreeEntry) (result : Diff)
    → All (EachChild (MarkFinishes mark)) entries
    → Finishes (mark_deleted_entries mark prefix entries result)
unfolding mark_deleted_entries
mark_deleted_entries-Finishes mark prefix [] result h = tt
mark_deleted_entries-Finishes mark prefix (tree n d m s c ∷ es) result h =
    Finishes-bind (mark d (join_path prefix n) result)
      (λ inner. mark_deleted_entries mark prefix es inner) (h.0 (join_path prefix n) result)
      (λ inner. mark_deleted_entries-Finishes mark prefix es inner h.1)
mark_deleted_entries-Finishes mark prefix (blob n d m s o ∷ es) result h =
    mark_deleted_entries-Finishes mark prefix es (insert (join_path prefix n) deleted result) h.1
mark_deleted_entries-Finishes mark prefix (symlink n t m ∷ es) result h =
    mark_deleted_entries-Finishes mark prefix es (insert (join_path prefix n) deleted result) h.1

pub by_name-AllValues :
    (P : TreeEntry → Type 0) (es : List TreeEntry) (entries : List (Bytes × TreeEntry))
    → All P es
    → AllValues P entries
    → AllValues P (by_name es entries)
unfolding by_name
by_name-AllValues P [] entries h k = k
by_name-AllValues P (e ∷ es) entries h k =
    by_name-AllValues P es (insert (entry_name e) e entries) h.1
      (AllValues-insert P (entry_name e) e entries h.0 k)

pub delete_missing-Finishes :
    (mark : Mark) (prefix : Bytes) (targets : List TreeEntry) (base : List (Bytes × TreeEntry))
    (result : Diff)
    → AllValues (EachChild (MarkFinishes mark)) base
    → Finishes (delete_missing mark prefix targets base result)
unfolding delete_missing
delete_missing-Finishes mark prefix targets [] result h = tt
delete_missing-Finishes mark prefix targets ((name, tree n d m s c) ∷ base) result h =
    if_Finishes (any (λ e. bytes_eq (entry_name e) name) targets) _ _
      (delete_missing-Finishes mark prefix targets base result h.1)
      (Finishes-bind (mark d (join_path prefix name) [])
        (λ sub. delete_missing mark prefix targets base (extend result sub))
        (h.0 (join_path prefix name) [])
        (λ sub. delete_missing-Finishes mark prefix targets base (extend result sub) h.1))
delete_missing-Finishes mark prefix targets ((name, blob n d m s o) ∷ base) result h =
    if_Finishes (any (λ e. bytes_eq (entry_name e) name) targets) _ _
      (delete_missing-Finishes mark prefix targets base result h.1)
      (delete_missing-Finishes mark prefix targets base
        (insert (join_path prefix name) deleted result) h.1)
delete_missing-Finishes mark prefix targets ((name, symlink n t m) ∷ base) result h =
    if_Finishes (any (λ e. bytes_eq (entry_name e) name) targets) _ _
      (delete_missing-Finishes mark prefix targets base result h.1)
      (delete_missing-Finishes mark prefix targets base
        (insert (join_path prefix name) deleted result) h.1)

-- The mark of an old tree, wherever the base has one.
abbrev pub OldFinishes : Mark → Option TreeEntry → Type 0
OldFinishes mark none = Unit
OldFinishes mark (some e) = EachChild (MarkFinishes mark) e

pub diff_blob-Finishes :
    (mark : Mark) (path : Bytes) (hash : Digest) (size : ℕ) (mtime : Option ℕ) (mode : Option Bytes)
    (old : Option TreeEntry) (result : Diff)
    → OldFinishes mark old
    → Finishes (diff_blob mark path hash size mtime mode old result)
unfolding diff_blob
diff_blob-Finishes mark path hash size mtime mode none result h = tt
diff_blob-Finishes mark path hash size mtime mode (some (blob n d m s o)) result h =
    if_Finishes (not (digest_eq d hash) || not (mode_eq o mode))
      (done (insert path (modified hash size mtime mode) result)) (done result) tt tt
diff_blob-Finishes mark path hash size mtime mode (some (symlink n t m)) result h = tt
diff_blob-Finishes mark path hash size mtime mode (some (tree n d m s c)) result h =
    Finishes-bind (mark d path result) _ (h path result) (λ inner. tt)

pub diff_symlink-Finishes :
    (mark : Mark) (path target : Bytes) (mtime : Option ℕ) (old : Option TreeEntry) (result : Diff)
    → OldFinishes mark old
    → Finishes (diff_symlink mark path target mtime old result)
unfolding diff_symlink
diff_symlink-Finishes mark path target mtime none result h = tt
diff_symlink-Finishes mark path target mtime (some (blob n d m s o)) result h = tt
diff_symlink-Finishes mark path target mtime (some (symlink n t m)) result h =
    if_Finishes (not (bytes_eq t target)) (done (insert path (symlinked target mtime true) result))
      (done result) tt tt
diff_symlink-Finishes mark path target mtime (some (tree n d m s c)) result h =
    Finishes-bind (mark d path result) _ (h path result) (λ inner. tt)

pub All-EachChild :
    (P Q : Digest → Type 0) (entries : List TreeEntry)
    → ((hash : Digest) → P hash → Q hash)
    → All (EachChild P) entries
    → All (EachChild Q) entries
All-EachChild P Q [] f h = tt
All-EachChild P Q (blob n d m z o ∷ es) f h = (tt, All-EachChild P Q es f h.1)
All-EachChild P Q (symlink n t m ∷ es) f h = (tt, All-EachChild P Q es f h.1)
All-EachChild P Q (tree n d m z c ∷ es) f h = (f d h.0, All-EachChild P Q es f h.1)

pub AllValues-EachChild :
    (P Q : Digest → Type 0) (entries : List (Bytes × TreeEntry))
    → ((hash : Digest) → P hash → Q hash)
    → AllValues (EachChild P) entries
    → AllValues (EachChild Q) entries
AllValues-EachChild P Q [] f h = tt
AllValues-EachChild P Q ((k, blob n d m z o) ∷ es) f h = (tt, AllValues-EachChild P Q es f h.1)
AllValues-EachChild P Q ((k, symlink n t m) ∷ es) f h = (tt, AllValues-EachChild P Q es f h.1)
AllValues-EachChild P Q ((k, tree n d m z c) ∷ es) f h = (f d h.0, AllValues-EachChild P Q es f h.1)
