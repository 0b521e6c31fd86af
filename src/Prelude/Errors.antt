-- ===== src/Prelude/Errors.antt =====
-- `Error` of src/error.rs with the message texts left out, and `Result<T, Error>`.
use mathlib.Core.Path.{◌≡◌, refl}
use mathlib.Core.Logic.{◌⊎◌, inl, inr}

pub data Error : Type 0 where
  invalid_hash object_not_found local_object_missing ambiguous_hash cas_failed : Error
  lock_failed conflict auth_tag_mismatch invalid_object symlink_escape io : Error
  source_changed too_many_open_files json other : Error

-- A failure before a success.
pub data Result {ℓ} (Value : Type ℓ) : Type ℓ where
  err : (reason : Error) → Result Value
  ok : (value : Value) → Result Value

module _ {ℓ κ} {Value : Type ℓ} {Next : Type κ} where
  -- `?`: it computes wherever its first argument does.
  infixl 5 ◌>>=◌
  abbrev pub ◌>>=◌ : Result Value → (Value → Result Next) → Result Next
  err reason >>= next = err reason
  ok value >>= next = next value

  infixl 5 ◌>>◌
  abbrev pub ◌>>◌ : Result Value → Result Next → Result Next
  first >> second = first >>= λ _. second

  pub >>=-eq-ok :
      (first : Result Value) (next : Value → Result Next) {result : Next}
      → (first >>= next) ≡ ok result
      → (value : Value) × (first ≡ ok value) × (next value ≡ ok result)
  >>=-eq-ok (err reason) next h = cc
  >>=-eq-ok (ok value) next h = (value, refl, h)

pub Result-cases {ℓ} :
    {Value : Type ℓ} (r : Result Value)
    → ((e : Error) × (r ≡ err e)) ⊎ ((value : Value) × (r ≡ ok value))
Result-cases (err reason) = inl (reason, refl)
Result-cases (ok value) = inr (value, refl)
