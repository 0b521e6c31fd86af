-- ===== src/Pack/Bloom/Sizing.antt =====
-- `capacity_for` of src/codec/pack/bloom.rs and its ladder.
use omemfs.Prelude.{
  ℕ, zero, suc, ◌-◌, ◌*◌, ◌/◌, ◌^◌, ◌≤◌, ◌<◌, ◌≡◌, ap, false, none, some, ltb, ◌==◌, if◌then◌else◌,
  arith, ◌⊎◌, inl, inr, Option-cases, Bool-cases,
}
use native.Mathlib.Nat.{pow-suc}
use omemfs.Pack.Bloom.{
  clamp, min_capacity, max_capacity, ladder_candidate, ladder_step, ladder_loop, ladder_ceil,
  capacity_for,
}

ladder_loop_total :
    (rounds power value : ℕ)
    → 0 < power
    → power < 2 ^ 64
    → 2 ^ 64 ≤ power * 10 ^ rounds
    → (c : ℕ) × (ladder_loop rounds power value ≡ some c)
unfolding ladder_loop
ladder_loop_total zero power value p h k = absurd (omega arith)
ladder_loop_total (suc rounds) power value p h k = elim (Option-cases (ladder_step power value)) [
  | inr (c, e) ↦ (c, rw (e, ladder_loop))
  | inl e ↦ elim (Bool-cases (ltb (power * 10) (2 ^ 64))) [
    | inl more ↦
        let (c, e') =
          ladder_loop_total rounds (power * 10) value (omega arith) (ground arith)
            (omega (arith, ap (λ (t : ℕ). power * t) (pow-suc 10 rounds))) in
        (c, rw (e, more, ladder_loop) e')
    | inr last ↦
        (if ltb (5 * power) (2 ^ 64) then 5 * power else 2 ^ 64 - 1, rw (e, last, ladder_loop))
  ]
]

-- What one round finds is a step at or above the value, and no smaller one of the round is.
step_bounds :
    (power value c : ℕ)
    → ladder_step power value ≡ some c
    → (value ≤ c) × (power ≤ c) × (c ≤ 5 * power)
unfolding ladder_step ladder_candidate
step_bounds power value c e = ground arith

-- A larger value is refused by every step that refuses a smaller one.
step_mono :
    (power v w c d : ℕ)
    → v ≤ w
    → ladder_step power v ≡ some c
    → ladder_step power w ≡ some d
    → c ≤ d
unfolding ladder_step ladder_candidate
step_mono power v w c d h e k = ground arith

step_none :
    (power v w d : ℕ) → v ≤ w → ladder_step power v ≡ none → ladder_step power w ≡ some d → ⊥
unfolding ladder_step ladder_candidate
step_none power v w d h e k = ground arith

-- The value is reached wherever the steps do not overflow.
loop_bounds :
    (rounds power value c : ℕ)
    → value ≤ 10 ^ 18
    → 0 < power
    → power < 2 ^ 64
    → ladder_loop rounds power value ≡ some c
    → (value ≤ c) × (power ≤ c)
unfolding ladder_loop
loop_bounds zero power value c h p q e = cc
loop_bounds (suc rounds) power value c h p q e = elim (Option-cases (ladder_step power value)) [
  | inr (d, k) ↦ ground (arith, step_bounds power value d k)
  | inl k ↦ elim (Bool-cases (ltb (power * 10) (2 ^ 64))) [
    | inl more ↦
        let r =
          loop_bounds rounds (power * 10) value c h (omega arith) (ground arith)
            (rw (k, more, ladder_loop) at e) in
        omega (arith, r)
    | inr last ↦ unfold ladder_step ladder_candidate in ground arith
  ]
]

loop_mono :
    (rounds power v w c d : ℕ)
    → v ≤ w
    → w ≤ 10 ^ 18
    → 0 < power
    → power < 2 ^ 64
    → ladder_loop rounds power v ≡ some c
    → ladder_loop rounds power w ≡ some d
    → c ≤ d
loop_mono zero power v w c d h top p q e k = unfold ladder_loop in cc
loop_mono (suc rounds) power v w c d h top p q e k = elim (Option-cases (ladder_step power v)) [
  | inr (x, sv) ↦ elim (Option-cases (ladder_step power w)) [
    | inr (y, sw) ↦ unfold ladder_loop in ground (arith, step_mono power v w x y h sv sw)
    | inl sw ↦ elim (Bool-cases (ltb (power * 10) (2 ^ 64))) [
      | inl more ↦
          let k' : ladder_loop rounds (power * 10) w ≡ some d =
            unfold ladder_loop in ground arith in
          let above = loop_bounds rounds (power * 10) w d top (omega arith) (ground arith) k' in
          unfold ladder_loop in ground (arith, above, step_bounds power v x sv)
      | inr last ↦ unfold ladder_step ladder_candidate in ground arith
    ]
  ]
  | inl sv ↦ elim (Option-cases (ladder_step power w)) [
    | inr (y, sw) ↦ absurd (step_none power v w y h sv sw)
    | inl sw ↦ elim (Bool-cases (ltb (power * 10) (2 ^ 64))) [
      | inl more ↦
          loop_mono rounds (power * 10) v w c d h top (omega arith) (ground arith)
            (unfold ladder_loop in ground arith) (unfold ladder_loop in ground arith)
      | inr last ↦ unfold ladder_loop in ground arith
    ]
  ]
]

ladder_ceil_lem : (v : ℕ) → v ≤ 10 ^ 18 → (c : ℕ) × (ladder_ceil v ≡ some c) × (v ≤ c)
unfolding ladder_ceil
ladder_ceil_lem v top = elim (Bool-cases (v == 0)) [
  | inl z ↦ (0, rw z, ground arith)
  | inr pos ↦
      let (c, e) = ladder_loop_total 20 1 v (omega arith) (omega arith) (omega arith) in
      (c, rw pos e, (loop_bounds 20 1 v c top (omega arith) (omega arith) e).0)
]

ladder_ceil_mono :
    (v w c d : ℕ) → v ≤ w → w ≤ 10 ^ 18 → ladder_ceil v ≡ some c → ladder_ceil w ≡ some d → c ≤ d
unfolding ladder_ceil
ladder_ceil_mono v w c d h top e k = elim (Bool-cases (v == 0)) [
  | inl z ↦ ground arith
  | inr pos ↦
      let ne : (w == 0) ≡ false = ground arith in
      loop_mono 20 1 v w c d h top (omega arith) (omega arith) (rw pos at e) (rw ne at k)
]

clamp_bounds : (lo hi x : ℕ) → lo ≤ hi → (lo ≤ clamp lo hi x) × (clamp lo hi x ≤ hi)
unfolding clamp
clamp_bounds lo hi x h = ground arith

clamp_mono : (lo hi x y : ℕ) → lo ≤ hi → x ≤ y → clamp lo hi x ≤ clamp lo hi y
unfolding clamp
clamp_mono lo hi x y h k = ground arith

-- A value at or above a number is clamped to that number at least, or to the upper bound.
clamp_above : (lo hi x : ℕ) → lo ≤ hi → (x ≤ clamp lo hi x) ⊎ (clamp lo hi x ≡ hi)
unfolding clamp
clamp_above lo hi x h = ground arith

-- The count with half of it added, in the bounds of the input clamp.
abbrev margin_of : ℕ → ℕ
margin_of n = clamp 1 max_capacity n * 3 / 2

margin_of_small : (n : ℕ) → margin_of n ≤ 10 ^ 18
margin_of_small n = omega (arith, clamp_bounds 1 max_capacity n (omega arith))

capacity_for_lem :
    (n : ℕ)
    → (s : ℕ) × (ladder_ceil (margin_of n) ≡ some s)
      × (margin_of n ≤ s)
      × (capacity_for n ≡ some (clamp min_capacity max_capacity s))
unfolding capacity_for
capacity_for_lem n =
    let (s, e, room) = ladder_ceil_lem (margin_of n) (margin_of_small n) in (s, e, room, cap s e)
  where
    cap :
        (s : ℕ)
        → ladder_ceil (margin_of n) ≡ some s
        → capacity_for n ≡ some (clamp min_capacity max_capacity s)
    cap s e = rw e

capacity_room :
    (n s : ℕ)
    → margin_of n ≤ s
    → (n * 3 / 2 ≤ clamp min_capacity max_capacity s)
      ⊎ (clamp min_capacity max_capacity s ≡ max_capacity)
capacity_room n s h = omega (
  arith,
  clamp_above 1 max_capacity n (omega arith),
  clamp_above min_capacity max_capacity s (omega arith),
  clamp_bounds min_capacity max_capacity s (omega arith),
)

-- A capacity is found for every count, lies between the two bounds, and is at least one and a half
-- times the count, rounded down, unless it is the upper bound.
pub capacity_for_bounds :
    (n : ℕ)
    → (c : ℕ) × (capacity_for n ≡ some c)
      × (min_capacity ≤ c)
      × (c ≤ max_capacity)
      × ((n * 3 / 2 ≤ c) ⊎ (c ≡ max_capacity))
capacity_for_bounds n =
    let (s, e, room, cap) = capacity_for_lem n in
    let (lo, hi) = clamp_bounds min_capacity max_capacity s (omega arith) in
    (clamp min_capacity max_capacity s, cap, lo, hi, capacity_room n s room)

-- A larger element count never gives a smaller capacity.
pub capacity_for_mono :
    (m n c d : ℕ) → m ≤ n → capacity_for m ≡ some c → capacity_for n ≡ some d → c ≤ d
capacity_for_mono m n c d h e k =
    let (s, es, _, cs) = capacity_for_lem m in
    let (t, et, _, ct) = capacity_for_lem n in
    let grow = clamp_mono 1 max_capacity m n (omega arith) h in
    let le : s ≤ t = ladder_ceil_mono _ _ s t (omega arith) (margin_of_small n) es et in
    let c' : clamp min_capacity max_capacity s ≡ c = cc in
    let d' : clamp min_capacity max_capacity t ≡ d = cc in
    omega (arith, clamp_mono min_capacity max_capacity s t (omega arith) le)
