-- ===== src/Trees/Store.antt =====
-- Objects by hash, and the steps that read and write them. What was written before an error stays
-- written, so a step returns the store beside its result.
use omemfs.Prelude.{Bool, true, false, Option, none, some, if◌then◌else◌}
use omemfs.Prelude.Bytes.{Bytes}
use omemfs.Prelude.Errors.{Result, ok, err, object_not_found}
use omemfs.Object.Digest.{Digest, digest_eq}

abbrev pub Store : Type 0
Store = Digest → Option Bytes

abbrev pub Step {ℓ} : Type ℓ → Type ℓ
Step A = Store → Result A × Store

module _ {ℓ} {A : Type ℓ} where
  abbrev pub pure : A → Step A
  pure a s = (ok a, s)

  -- A computation that only reads.
  abbrev pub reading : (Store → Result A) → Step A
  reading f s = (f s, s)

module _ {ℓ} {A B : Type ℓ} where
  abbrev pub continue : Result A → (A → Step B) → Store → Result B × Store
  continue (ok a) f s = f a s
  continue (err e) f s = (err e, s)

  infixl 5 ◌>>=◌
  abbrev pub ◌>>=◌ : Step A → (A → Step B) → Step B
  ◌>>=◌ m f s = continue (m s).0 f (m s).1

-- `store.exists(hash)`
unfoldable pub exists : Store → Digest → Bool
exists s h = elim (s h) [ none ↦ false | some _ ↦ true ]

-- `codec::store_read`
unfoldable pub store_read : Store → Digest → Result Bytes
store_read s h = elim (s h) [ none ↦ err object_not_found | some bytes ↦ ok bytes ]

-- `codec::store_write`: an object that is there is not written again.
unfoldable pub store_write : Digest → Bytes → Store → Store
unfolding exists
store_write h bytes s k = if exists s h then s k else if digest_eq h k then some bytes else s k
