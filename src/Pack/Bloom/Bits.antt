-- ===== src/Pack/Bloom/Bits.antt =====
-- `set_bit` and `get_bit` of src/codec/pack/bloom.rs.
use omemfs.Prelude.{
  ℕ, zero, suc, ◌/◌, ◌%◌, ◌^◌, ◌<◌, ◌≡◌, refl, ap, ◌∙◌, Bool, true, ◌&&◌, [], ◌∷◌, some, ltb, ◌==◌,
  ==_iff, if◌then◌else◌, get_elem?, set, length, length-set, All, bit_and, bit_or, all_below,
  all_below_sound, arith, Bool-cases, ◌⊎◌, inl, inr,
}
use omemfs.Prelude.Bytes.{Bytes, IsByte}
use mathlib.Core.Option.{some-injective}
use omemfs.Pack.Bloom.{set_bit, get_bit}

abbrev bit_of : ℕ → ℕ → Bool
bit_of b j = bit_and (b / 2 ^ j) 1 == 1

-- What `|= 1 << i` owes for each later test of bit `j`.
set_ok : ℕ → ℕ → ℕ → Bool
set_ok b i j =
    let c = bit_or b (2 ^ i) in
    ltb c 256 && (if i == j then bit_of c j else (if bit_of b j then bit_of c j else true))

set_table : all_below 256 (λ b. all_below 8 (λ i. all_below 8 (set_ok b i))) ≡ true
unfolding all_below set_ok
set_table = refl

set_sound : (b i j : ℕ) → IsByte b → i < 8 → j < 8 → set_ok b i j ≡ true
set_sound b i j hb hi hj =
    all_below_sound 8 _ j (all_below_sound 8 _ i (all_below_sound 256 _ b set_table hb) hi) hj

set_facts :
    (b i j : ℕ)
    → IsByte b
    → i < 8
    → j < 8
    → IsByte (bit_or b (2 ^ i))
      × (i ≡ j → bit_of (bit_or b (2 ^ i)) j ≡ true)
      × (bit_of b j ≡ true → bit_of (bit_or b (2 ^ i)) j ≡ true)
unfolding set_ok
set_facts b i j hb hi hj =
    let ok = set_sound b i j hb hi hj in (ground arith, λ e. ground arith, λ e. ground arith)

elem_of :
    (bits : Bytes) (k : ℕ)
    → k < length bits
    → All IsByte bits
    → (b : ℕ) × (get_elem? bits k ≡ some b) × IsByte b
elem_of [] k h a = absurd (omega arith)
elem_of (b ∷ bits) zero h a = (b, refl, a.0)
elem_of (b ∷ bits) (suc k) h a = elem_of bits k (omega arith) a.1

set-IsByte : (bits : Bytes) (k v : ℕ) → IsByte v → All IsByte bits → All IsByte (set bits k v)
set-IsByte [] k v h a = tt
set-IsByte (b ∷ bits) zero v h a = (h, a.1)
set-IsByte (b ∷ bits) (suc k) v h a = (a.0, set-IsByte bits k v h a.1)

get_set :
    (bits : Bytes) (k m v : ℕ)
    → k < length bits
    → get_elem? (set bits k v) m ≡ (if k == m then some v else get_elem? bits m)
get_set [] k m v h = absurd (omega arith)
get_set (b ∷ bits) zero zero v h = refl
get_set (b ∷ bits) zero (suc m) v h = ground arith
get_set (b ∷ bits) (suc k) zero v h = ground arith
get_set (b ∷ bits) (suc k) (suc m) v h = get_set bits k m v (omega arith) ∙ ground arith

-- The array after a bit is set: of the same size, and of bytes.
pub set_bit_total :
    (bits : Bytes) (i : ℕ)
    → i / 8 < length bits
    → All IsByte bits
    → (bits' : Bytes) × (set_bit bits i ≡ some bits')
      × (length bits' ≡ length bits)
      × All IsByte bits'
unfolding set_bit
set_bit_total bits i h a =
    let (b, e, hb) = elem_of bits (i / 8) h a in
    let byte = (set_facts b (i % 8) 0 hb (omega arith) (omega arith)).0 in
    let v = bit_or b (2 ^ (i % 8)) in
    (set bits (i / 8) v, rw e, length-set bits (i / 8) v, set-IsByte bits (i / 8) v byte a)

-- A bit that is set stays set, and the new one is set.
pub get_bit-set_bit :
    (bits bits' : Bytes) (i j : ℕ)
    → i / 8 < length bits
    → All IsByte bits
    → set_bit bits i ≡ some bits'
    → (i ≡ j) ⊎ (get_bit bits j ≡ some true)
    → get_bit bits' j ≡ some true
unfolding set_bit get_bit
get_bit-set_bit bits bits' i j h a e k =
    let (b, eb, hb) = elem_of bits (i / 8) h a in
    let v = bit_or b (2 ^ (i % 8)) in
    let (_, new, old) = set_facts b (i % 8) (j % 8) hb (omega arith) (omega arith) in
    let e' : set bits (i / 8) v ≡ bits' = some-injective _ _ (rw eb at e) in
    rw (← e', get_set bits (i / 8) (j / 8) v h)
      (elim (Bool-cases ((i / 8) == (j / 8))) [
        | inr other ↦ rw other (elim k [ inl same ↦ absurd (ground arith) | inr was ↦ was ])
        | inl here ↦
            let here' : i / 8 ≡ j / 8 = (==_iff _ _).0 here in
            rw here (elim k [
              | inl same ↦ ap some (new (ap (λ n. n % 8) same))
              | inr was ↦
                  let eb' : get_elem? bits (j / 8) ≡ some b = rw here' at eb in
                  ap some (old (some-injective _ _ (rw eb' at was)))
            ])
      ])
