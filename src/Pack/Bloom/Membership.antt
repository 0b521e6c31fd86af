-- ===== src/Pack/Bloom/Membership.antt =====
-- `insert` of src/codec/pack/bloom.rs followed by `may_contain`.
use omemfs.Prelude.{
  ℕ, zero, suc, ◌+◌, ◌/◌, ◌%◌, ◌^◌, ◌<◌, ◌≡◌, refl, ◌∙◌, true, false, List, [], ◌∷◌, Option, some,
  ◌==◌, length, All, arith, Bool-cases, inl, inr,
}
use omemfs.Prelude.Bytes.{Bytes, IsByte}
use omemfs.Prelude.Options.{◌>>=◌, >>=-eq-some}
use omemfs.Object.Digest.{Digest}
use omemfs.Pack.Bloom.{
  BloomFilter, bytes_for, get_bit, bit_index, set_bits, has_bits, insert, may_contain,
}
use omemfs.Pack.Bloom.Bits.{set_bit_total, get_bit-set_bit}

-- The array of a filter that can be used: bytes, as many as its bits need.
abbrev pub IsArray : ℕ → Bytes → Type 0
IsArray num_bits bits = All IsByte bits × (length bits ≡ bytes_for num_bits)

-- Every bit of the first array is a bit of the second.
Grows : Bytes → Bytes → Type 0
Grows bits bits' = (j : ℕ) → get_bit bits j ≡ some true → get_bit bits' j ≡ some true

bit_index_bound :
    (hash_bytes : Bytes) (k num_bits : ℕ)
    → 0 < num_bits
    → bit_index hash_bytes k num_bits < num_bits
unfolding bit_index
bit_index_bound hash_bytes k num_bits h = omega arith

has_bits_mono :
    (rounds i : ℕ) (h : Bytes) (n : ℕ) (bits bits' : Bytes)
    → Grows bits bits'
    → has_bits rounds i h n bits ≡ some true
    → has_bits rounds i h n bits' ≡ some true
unfolding has_bits Grows
has_bits_mono zero i h n bits bits' g e = refl
has_bits_mono (suc rounds) i h n bits bits' g e =
    let k = bit_index h i n in
    let (b, eb, rest) = >>=-eq-some (get_bit bits k) _ e in
    elim (Bool-cases b) [
      | inl yes' ↦
          let old : get_bit bits k ≡ some true = rw yes' at eb in
          let more : has_bits rounds (i + 1) h n bits ≡ some true = rw yes' at rest in
          rw (g k old) (has_bits_mono rounds (i + 1) h n bits bits' g more)
      | inr no' ↦ ground arith
    ]

-- What the loop of `insert` leaves.
record Marked (rounds i : ℕ) (h : Bytes) (n : ℕ) (bits bits' : Bytes) : Type 0 where
  array : IsArray n bits'
  grows : Grows bits bits'
  marked : has_bits rounds i h n bits' ≡ some true

set_bits_lem :
    (rounds i : ℕ) (h : Bytes) (n : ℕ) (bits : Bytes)
    → 0 < n
    → IsArray n bits
    → (bits' : Bytes) × (set_bits rounds i h n bits ≡ some bits') × Marked rounds i h n bits bits'
unfolding set_bits has_bits Grows
set_bits_lem zero i h n bits pos a =
    (bits, refl, record { array = a; grows = λ j e. e; marked = refl })
set_bits_lem (suc rounds) i h n bits pos a =
    let k = bit_index h i n in
    let inside : k / 8 < length bits = omega (arith, bit_index_bound h i n pos, a.1) in
    let (bits1, e1, len, bytes) = set_bit_total bits k inside a.0 in
    let (bits2, e2, m) = set_bits_lem rounds (i + 1) h n bits1 pos (bytes, len ∙ a.1) in
    let here : get_bit bits2 k ≡ some true =
      m.grows k (get_bit-set_bit bits bits1 k k inside a.0 e1 (inl refl)) in
    (
      bits2,
      rw e1 e2,
      record {
        array = m.array;
        grows = λ j e. m.grows j (get_bit-set_bit bits bits1 k j inside a.0 e1 (inr e));
        marked = rw here m.marked;
      },
    )

abbrev pub IsUsable : BloomFilter → Type 0
IsUsable f = IsArray f.num_bits f.bits

-- Inserting into a filter with at least one bit and the bytes for its bits succeeds, keeps it so,
-- counts the element modulo 2^64, and afterwards the element is reported present and so is every
-- element that was before.
pub insert_lem :
    (f : BloomFilter) (hash : Digest)
    → IsUsable f
    → 0 < f.num_bits
    → (g : BloomFilter) × (insert f hash ≡ some g)
      × IsUsable g
      × (g.num_bits ≡ f.num_bits)
      × (g.element_count ≡ (f.element_count + 1) % 2 ^ 64)
      × (may_contain g hash ≡ some true)
      × ((other : Digest) → may_contain f other ≡ some true → may_contain g other ≡ some true)
unfolding insert may_contain
insert_lem f hash a pos =
    let n = f.num_bits in
    let k = f.num_hash_functions in
    let nz : (n == 0) ≡ false = ground arith in
    let (bits, e, m) = set_bits_lem k 0 hash.bytes n f.bits pos a in
    (
      record f { bits = bits; element_count = (f.element_count + 1) % 2 ^ 64 },
      rw (nz, e),
      m.array,
      refl,
      refl,
      rw nz m.marked,
      λ other old. rw nz (has_bits_mono k 0 other.bytes n f.bits bits m.grows (rw nz at old)),
    )

-- Inserting a list of hashes, one after the other.
pub insert_all : BloomFilter → List Digest → Option BloomFilter
insert_all f [] = some f
insert_all f (h ∷ hs) = do g ← insert f h; insert_all g hs

abbrev pub AllPresent : BloomFilter → List Digest → Type 0
AllPresent f [] = Unit
AllPresent f (h ∷ hs) = (may_contain f h ≡ some true) × AllPresent f hs

insert_all_keeps :
    (f : BloomFilter) (hs : List Digest)
    → IsUsable f
    → 0 < f.num_bits
    → (g : BloomFilter) × (insert_all f hs ≡ some g)
      × AllPresent g hs
      × ((other : Digest) → may_contain f other ≡ some true → may_contain g other ≡ some true)
unfolding insert_all
insert_all_keeps f [] a pos = (f, refl, tt, λ other e. e)
insert_all_keeps f (h ∷ hs) a pos =
    let (f1, e1, a1, n1, _, here, keep) = insert_lem f h a pos in
    let (g, e2, rest, keep') = insert_all_keeps f1 hs a1 (rw n1 pos) in
    (g, rw e1 e2, (keep' h here, rest), λ other e. keep' other (keep other e))

-- Inserting any list of hashes into a filter with at least one bit and the bytes for its bits
-- succeeds, no index out of range, and each of the hashes is then reported present.
pub insert_all-AllPresent :
    (f : BloomFilter) (hs : List Digest)
    → IsUsable f
    → 0 < f.num_bits
    → (g : BloomFilter) × (insert_all f hs ≡ some g) × AllPresent g hs
insert_all-AllPresent f hs a pos = let (g, e, here, _) = insert_all_keeps f hs a pos in (g, e, here)
