-- ===== src/Prelude/Options.antt =====
-- Chains of `?` on `Option`, and the inversion of one that succeeds.
use mathlib.Core.Path.{◌≡◌, refl}
use mathlib.Core.Option.{Option, none, some}

module _ {ℓ κ} {Value : Type ℓ} {Next : Type κ} where
  infixl 5 ◌>>=◌
  abbrev pub ◌>>=◌ : Option Value → (Value → Option Next) → Option Next
  some value >>= next = next value
  none >>= next = none

  pub >>=-eq-some :
      (first : Option Value) (next : Value → Option Next) {result : Next}
      → (first >>= next) ≡ some result
      → (value : Value) × (first ≡ some value) × (next value ≡ some result)
  >>=-eq-some (some value) next h = (value, refl, h)
  >>=-eq-some none next h = cc
