-- ===== src/Trees/Walk.antt =====
-- Walks over a tree of trees. The recursion follows hashes through the store, so it runs on fuel, and
-- a walk says whether the fuel was enough.
use omemfs.Prelude.{ℕ, zero, suc, ◌≡◌, refl, Option, List, All}
use omemfs.Prelude.Bytes.{Bytes}
use omemfs.Prelude.Errors.{Error, Result, ok, err}
use omemfs.Object.Digest.{Digest}
use omemfs.Object.Entry.{TreeEntry, tree}
use omemfs.Trees.Store.{Store}
use omemfs.Trees.Read.{read_tree}

pub data Walk {ℓ} (A : Type ℓ) : Type ℓ where
  out_of_fuel : Walk A
  failed : Error → Walk A
  done : A → Walk A

module _ {ℓ κ} {A : Type ℓ} {B : Type κ} where
  infixl 5 ◌>>=◌
  abbrev pub ◌>>=◌ : Walk A → (A → Walk B) → Walk B
  out_of_fuel >>= next = out_of_fuel
  failed e >>= next = failed e
  done a >>= next = next a

pub >>=-eq-done {ℓ κ} :
    {A : Type ℓ} {B : Type κ} (w : Walk A) (next : A → Walk B) {result : B}
    → (w >>= next) ≡ done result
    → (value : A) × (w ≡ done value) × (next value ≡ done result)
>>=-eq-done out_of_fuel next h = cc
>>=-eq-done (failed e) next h = cc
>>=-eq-done (done a) next h = (a, refl, h)

module _ {ℓ} {A : Type ℓ} where
  -- A step that does not recurse.
  abbrev pub lift : Result A → Walk A
  lift (err e) = failed e
  lift (ok a) = done a

  abbrev pub Finishes : Walk A → Type 0
  Finishes out_of_fuel = ⊥
  Finishes _ = Unit

abbrev pub EachChild : (Digest → Type 0) → TreeEntry → Type 0
EachChild P (tree name hash mtime size blob_count) = P hash
EachChild P _ = Unit

module _ (sha256 : Bytes → Bytes) (from_json : Bytes → Option (List TreeEntry)) where
  -- The trees that can be read from a hash are nested at most so deep.
  unfoldable pub IsDeep : ℕ → Store → Digest → Type 0
  IsDeep zero s hash = ⊥
  IsDeep (suc n) s hash =
      (entries : List TreeEntry)
      → read_tree sha256 from_json s hash ≡ ok entries
      → All (EachChild (IsDeep n s)) entries
