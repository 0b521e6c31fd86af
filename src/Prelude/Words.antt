-- ===== src/Prelude/Words.antt =====
-- Unsigned words as bytes: `to_be_bytes`, `from_be_bytes` and `from_le_bytes`.
use Prim.Native.Nat.{ℕ, zero, suc, ◌+◌, ◌*◌, ◌/◌, ◌%◌, ◌^◌, ◌<◌}
use mathlib.Core.Path.{◌≡◌, refl}
use mathlib.Core.List.{[], ◌∷◌, ◌++◌}
use native.Mathlib.Omega.{arith}
use native.Mathlib.Nat.{pow-suc}
use omemfs.Prelude.Lists.{length, length-append, All, All-append}
use omemfs.Prelude.Bytes.{Bytes, IsByte}

-- The `n` bytes of a word, the highest first.
unfoldable pub be_bytes : ℕ → ℕ → Bytes
be_bytes zero v = []
be_bytes (suc n) v = be_bytes n (v / 256) ++ (v % 256 ∷ [])

from_be_onto : ℕ → Bytes → ℕ
from_be_onto acc [] = acc
from_be_onto acc (b ∷ bs) = from_be_onto (acc * 256 + b) bs

unfoldable pub from_be : Bytes → ℕ
unfolding from_be_onto
from_be bs = from_be_onto 0 bs

unfoldable pub from_le : Bytes → ℕ
from_le [] = 0
from_le (b ∷ bs) = b + 256 * from_le bs

from_be_onto-append :
    (acc : ℕ) (bs : Bytes) (b : ℕ)
    → from_be_onto acc (bs ++ (b ∷ [])) ≡ from_be_onto acc bs * 256 + b
unfolding from_be_onto
from_be_onto-append acc [] b = refl
from_be_onto-append acc (c ∷ bs) b = from_be_onto-append (acc * 256 + c) bs b

pub from_be-be_bytes : (n v : ℕ) → v < 256 ^ n → from_be (be_bytes n v) ≡ v
unfolding be_bytes from_be
from_be-be_bytes zero v h = omega arith
from_be-be_bytes (suc n) v h = omega (
  arith,
  from_be_onto-append 0 (be_bytes n (v / 256)) (v % 256),
  from_be-be_bytes n (v / 256) (omega (arith, pow-suc 256 n)),
)

pub length-be_bytes : (n v : ℕ) → length (be_bytes n v) ≡ n
unfolding be_bytes
length-be_bytes zero v = refl
length-be_bytes (suc n) v =
    omega (arith, length-append (be_bytes n (v / 256)) (v % 256 ∷ []), length-be_bytes n (v / 256))

pub be_bytes-IsByte : (n v : ℕ) → All IsByte (be_bytes n v)
unfolding be_bytes
be_bytes-IsByte zero v = tt
be_bytes-IsByte (suc n) v =
    All-append IsByte (be_bytes n (v / 256)) (v % 256 ∷ []) (be_bytes-IsByte n (v / 256))
      (omega arith)
