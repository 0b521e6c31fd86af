-- ===== src/Pack/Bloom.antt =====
-- src/codec/pack/bloom.rs. An index out of range panics in the source: `none`.
pub mod Bits
pub mod Membership
pub mod Sizing
pub mod RoundTrip
use omemfs.Prelude.{
  ℕ, zero, suc, ◌+◌, ◌*◌, ◌/◌, ◌%◌, ◌^◌, Bool, true, false, ◌&&◌, ◌||◌, List, [], ◌∷◌, ◌++◌, Option,
  none, some, ltb, leb, ◌==◌, if◌then◌else◌, ◌-◌, get_elem?, get_or, set, length, take, drop,
  replicate, min, max, bit_and, bit_or, not,
}
use omemfs.Prelude.Bytes.{Bytes, bytes_eq}
use omemfs.Prelude.Words.{be_bytes, from_be, from_le}
use omemfs.Prelude.Options.{◌>>=◌}
use omemfs.Prelude.Errors.{Result, ok, err, invalid_object}
use omemfs.Object.Digest.{Digest}

abbrev pub magic : Bytes
magic = 0xED ∷ 0xE4 ∷ []

abbrev pub version : ℕ
version = 1

abbrev pub header_len : ℕ
header_len = 20

abbrev pub min_capacity : ℕ
min_capacity = 100_000

abbrev pub max_capacity : ℕ
max_capacity = 100_000_000

unfoldable pub clamp : ℕ → ℕ → ℕ → ℕ
clamp lo hi x = if ltb x lo then lo else if ltb hi x then hi else x

-- `step.checked_mul(power)` with `candidate >= value`
unfoldable pub ladder_candidate : ℕ → ℕ → ℕ → Bool
ladder_candidate step power value = ltb (step * power) (2 ^ 64) && leb value (step * power)

-- One round of the inner `for` over 1, 2 and 5.
unfoldable pub ladder_step : ℕ → ℕ → Option ℕ
unfolding ladder_candidate
ladder_step power value =
    if ladder_candidate 1 power value
    then some (1 * power)
    else if ladder_candidate 2 power value
    then some (2 * power)
    else if ladder_candidate 5 power value
    then some (5 * power)
    else none

-- The outer loop on fuel: `none` means that the fuel ran out.
unfoldable pub ladder_loop : ℕ → ℕ → ℕ → Option ℕ
ladder_loop zero power value = none
ladder_loop (suc rounds) power value = elim (ladder_step power value) [
  | some candidate ↦ some candidate
  | none ↦ elim (ltb (power * 10) (2 ^ 64)) [
    | true ↦ ladder_loop rounds (power * 10) value
    | false ↦ some (if ltb (5 * power) (2 ^ 64) then 5 * power else 2 ^ 64 - 1)
  ]
]

-- The power is at least 10^20 after 20 rounds, so 20 rounds are enough.
unfoldable pub ladder_ceil : ℕ → Option ℕ
unfolding ladder_loop ladder_step
ladder_ceil value = if value == 0 then some 0 else ladder_loop 20 1 value

unfoldable pub capacity_for : ℕ → Option ℕ
unfolding clamp
capacity_for element_count = do
  let n = clamp 1 max_capacity element_count
  let margin = n * 3 / 2
  step ← ladder_ceil margin
  some (clamp min_capacity max_capacity step)

pub record BloomFilter : Type 0 where
  pub num_hash_functions : ℕ
  pub num_bits : ℕ
  pub element_count : ℕ
  pub bits : Bytes

-- `n.div_ceil(8)`
abbrev pub bytes_for : ℕ → ℕ
bytes_for n = (n + 7) / 8

unfoldable pub from_parts : ℕ → ℕ → ℕ → Bytes → Result BloomFilter
from_parts num_hash_functions num_bits element_count bits =
    if length bits == bytes_for num_bits
    then ok (record {
      num_hash_functions = num_hash_functions;
      num_bits = num_bits;
      element_count = element_count;
      bits = bits;
    })
    else err invalid_object

-- The two defects, by the texts of the source.
pub data Defect : Type 0 where
  num_bits_zero num_hash_functions_zero : Defect

pub structural_defect : BloomFilter → Option Defect
structural_defect f =
    if f.num_bits == 0
    then some num_bits_zero
    else if f.num_hash_functions == 0
    then some num_hash_functions_zero
    else none

pub set_bit : Bytes → ℕ → Option Bytes
set_bit bits index = do
  b ← get_elem? bits (index / 8)
  some (set bits (index / 8) (bit_or b (2 ^ (index % 8))))

pub get_bit : Bytes → ℕ → Option Bool
get_bit bits index = do b ← get_elem? bits (index / 8); some (bit_and (b / 2 ^ (index % 8)) 1 == 1)

pub bit_index : Bytes → ℕ → ℕ → ℕ
bit_index hash_bytes k num_bits =
    let h1 = from_le (take 8 hash_bytes) in
    let h2 = from_le (take 8 (drop 8 hash_bytes)) in (h1 + k * h2 % 2 ^ 64) % 2 ^ 64 % num_bits

-- `for i in 0..num_hash_functions` of `insert`, from round `i` on.
pub set_bits : ℕ → ℕ → Bytes → ℕ → Bytes → Option Bytes
set_bits zero i hash_bytes num_bits bits = some bits
set_bits (suc rounds) i hash_bytes num_bits bits = do
  bits' ← set_bit bits (bit_index hash_bytes i num_bits)
  set_bits rounds (i + 1) hash_bytes num_bits bits'

pub insert : BloomFilter → Digest → Option BloomFilter
unfolding set_bits
insert f hash = if f.num_bits == 0 then some f else do
  bits ← set_bits f.num_hash_functions 0 hash.bytes f.num_bits f.bits
  some (record f { bits = bits; element_count = (f.element_count + 1) % 2 ^ 64 })

-- The loop of `may_contain`.
pub has_bits : ℕ → ℕ → Bytes → ℕ → Bytes → Option Bool
has_bits zero i hash_bytes num_bits bits = some true
has_bits (suc rounds) i hash_bytes num_bits bits = do
  b ← get_bit bits (bit_index hash_bytes i num_bits)
  let rest = has_bits rounds (i + 1) hash_bytes num_bits bits
  if not b then some false else rest

pub may_contain : BloomFilter → Digest → Option Bool
unfolding has_bits
may_contain f hash =
    if f.num_bits == 0
    then some true
    else has_bits f.num_hash_functions 0 hash.bytes f.num_bits f.bits

pub serialise : BloomFilter → Bytes
serialise f =
    magic
    ++ (version
        ∷ (f.num_hash_functions
            ∷ (be_bytes 8 f.num_bits ++ (be_bytes 8 f.element_count ++ f.bits))))

pub deserialise : Bytes → Result BloomFilter
deserialise input =
    let num_bits = from_be (take 8 (drop 4 input)) in
    let element_count = from_be (take 8 (drop 12 input)) in
    if ltb (length input) header_len
    then err invalid_object
    else if not (bytes_eq (take 2 input) magic)
    then err invalid_object
    else if not (get_or input 2 0 == version)
    then err invalid_object
    else if not (length input == header_len + bytes_for num_bits)
    then err invalid_object
    else from_parts (get_or input 3 0) num_bits element_count (drop header_len input)

-- `BloomFilter::new`. The bit count that the source computes in floats is a parameter.
pub new : (ℕ → ℕ) → ℕ → ℕ → BloomFilter
new optimal_num_bits expected_elements num_hash_functions =
    let m = optimal_num_bits expected_elements in
    record {
      num_hash_functions = num_hash_functions;
      num_bits = m;
      element_count = 0;
      bits = replicate (bytes_for m) 0;
    }

abbrev pub default_num_hash_functions : ℕ
default_num_hash_functions = 7

-- `sized_for`; the `expect` on the fallback holds, since one byte is right for one bit.
pub sized_for : (ℕ → ℕ) → ℕ → Option BloomFilter
unfolding capacity_for new
sized_for optimal_num_bits element_count = do
  capacity ← capacity_for element_count
  let f = new optimal_num_bits capacity default_num_hash_functions
  (if leb 1 f.num_bits then some f else elim (from_parts default_num_hash_functions 1 0 (0 ∷ [])) [
    | ok g ↦ some g
    | err e ↦ none
  ])
