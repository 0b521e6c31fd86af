-- ===== src/Pull/Decisions/Sides.antt =====
-- What the changes and results that `resolve_line_merges` of src/commands/pull.rs reads say of a side.
use omemfs.Prelude.{◌≡◌, refl, Bool, true, false, ◌&&◌, Option, none, some}
use omemfs.Prelude.Errors.{Result, ok, err}
use omemfs.Object.Digest.{Digest}
use omemfs.Pull.{DiffEntry, added, modified, is_blob_change, blob_of, to_option}
use omemfs.Pull.Decisions.Conflicts.{Writes}

pub and_false : (b : Bool) → (b && false) ≡ false
and_false true = refl
and_false false = refl

abbrev pub is_none {ℓ} : {A : Type ℓ} → Option A → Bool
is_none none = true
is_none (some a) = false

pub to_option-ok {ℓ} : {A : Type ℓ} (r : Result A) {a : A} → to_option r ≡ some a → r ≡ ok a
to_option-ok (ok a) h = cc
to_option-ok (err e) h = cc

pub blob_of-Writes : (entry : DiffEntry) (h : Digest) → blob_of entry ≡ some h → Writes entry h
unfolding blob_of
blob_of-Writes (added d z m o) h e = cc
blob_of-Writes (modified d z m o) h e = cc
blob_of-Writes _ h e = cc

pub Writes-blob_of : (entry : DiffEntry) (h : Digest) → Writes entry h → blob_of entry ≡ some h
unfolding blob_of
Writes-blob_of (added d z m o) h w = rw w refl
Writes-blob_of (modified d z m o) h w = rw w refl
Writes-blob_of _ h w = absurd w

pub is_blob_change-Writes :
    (entry : DiffEntry) → is_blob_change entry ≡ true → (h : Digest) × Writes entry h
unfolding is_blob_change
is_blob_change-Writes (added d z m o) e = (d, refl)
is_blob_change-Writes (modified d z m o) e = (d, refl)
is_blob_change-Writes _ e = cc

pub Writes-is_blob_change :
    (entry : DiffEntry) (h : Digest) → Writes entry h → is_blob_change entry ≡ true
unfolding is_blob_change
Writes-is_blob_change (added d z m o) h w = refl
Writes-is_blob_change (modified d z m o) h w = refl
Writes-is_blob_change _ h w = absurd w
