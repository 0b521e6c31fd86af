-- ===== src/LineMerge/Kept.antt =====
-- `policy_a_survivors` of src/line_merge.rs against the ranges that each side keeps.
use omemfs.Prelude.{
  ℕ, zero, suc, ◌+◌, ◌-◌, ◌<◌, ◌≡◌, refl, ◌∙◌, Bool, true, false, ◌&&◌, ◌||◌, List, [], ◌∷◌, ltb,
  leb, ◌==◌, if◌then◌else◌, set, get_or, length, replicate, length-set, length-replicate, arith,
}
use omemfs.Prelude.Bytes.{Bytes}
use omemfs.LineMerge.{Segment, keep, change, mark, mark_kept, marked, policy_a_survivors}

-- Whether a kept range of the segments has this line.
pub covers : List Segment → ℕ → Bool
covers [] i = false
covers (keep start end ∷ segments) i = (leb start i && ltb i end) || covers segments i
covers (change c ∷ segments) i = covers segments i

-- The lines, numbered from `i` on, that pass a test of their number.
pub select : (ℕ → Bool) → ℕ → List Bytes → List Bytes
select p i [] = []
select p i (l ∷ ls) = let rest = select p (suc i) ls in if p i then l ∷ rest else rest

get_or-set :
    (xs : List Bool) (i j : ℕ) (v : Bool)
    → j < length xs
    → get_or (set xs i v) j false ≡ (if i == j then v else get_or xs j false)
get_or-set [] i j v h = absurd (omega arith)
get_or-set (x ∷ xs) zero zero v h = refl
get_or-set (x ∷ xs) zero (suc j) v h = ground arith
get_or-set (x ∷ xs) (suc i) zero v h = ground arith
get_or-set (x ∷ xs) (suc i) (suc j) v h = let ih = get_or-set xs i j v (omega arith) in ground arith

length-mark : (n start : ℕ) (kept : List Bool) → length (mark n start kept) ≡ length kept
unfolding mark
length-mark zero start kept = refl
length-mark (suc n) start kept =
    length-mark n (suc start) (set kept start true) ∙ length-set kept start true

get_or-mark :
    (n start : ℕ) (kept : List Bool) (j : ℕ)
    → j < length kept
    → get_or (mark n start kept) j false
      ≡ (get_or kept j false || (leb start j && ltb j (start + n)))
unfolding mark
get_or-mark zero start kept j h = ground arith
get_or-mark (suc n) start kept j h =
    let size = length-set kept start true in
    let ih = get_or-mark n (suc start) (set kept start true) j (omega arith) in
    ground (arith, ih, get_or-set kept start j true h)

length-mark_kept :
    (segments : List Segment) (kept : List Bool) → length (mark_kept segments kept) ≡ length kept
unfolding mark_kept
length-mark_kept [] kept = refl
length-mark_kept (keep start end ∷ segments) kept =
    length-mark_kept segments (mark (end - start) start kept) ∙ length-mark (end - start) start kept
length-mark_kept (change c ∷ segments) kept = length-mark_kept segments kept

get_or-mark_kept :
    (segments : List Segment) (kept : List Bool) (j : ℕ)
    → j < length kept
    → get_or (mark_kept segments kept) j false ≡ (get_or kept j false || covers segments j)
unfolding mark_kept covers
get_or-mark_kept [] kept j h = ground arith
get_or-mark_kept (keep start end ∷ segments) kept j h =
    let size = length-mark (end - start) start kept in
    let ih = get_or-mark_kept segments (mark (end - start) start kept) j (omega arith) in
    let one = get_or-mark (end - start) start kept j h in ground arith
get_or-mark_kept (change c ∷ segments) kept j h = get_or-mark_kept segments kept j h

get_or-replicate : (n j : ℕ) → get_or (replicate n false) j false ≡ false
get_or-replicate zero j = refl
get_or-replicate (suc n) zero = refl
get_or-replicate (suc n) (suc j) = get_or-replicate n j

marked-select :
    (p : ℕ → Bool) (i : ℕ) (ls : List Bytes) (ks : List Bool)
    → length ks ≡ length ls
    → ((j : ℕ) → j < length ks → get_or ks j false ≡ p (i + j))
    → marked ls ks ≡ select p i ls
unfolding marked select
marked-select p i [] ks n h = refl
marked-select p i (l ∷ ls) [] n h = absurd (omega arith)
marked-select p i (l ∷ ls) (k ∷ ks) n h =
    let first : i + 0 ≡ i = omega arith in
    let here : k ≡ p i = rw first at (h 0 (omega arith)) in
    let later : (j : ℕ) → j < length ks → get_or ks j false ≡ p (suc i + j) = (λ j lt.
      let next : i + suc j ≡ suc i + j = omega arith in rw next at (h (suc j) (omega arith))) in
    rw (here, marked-select p (suc i) ls ks (omega arith) later)

-- The base lines in a merge are, in their order, those in a kept range of the local or the remote
-- side.
pub policy_a_survivors-select :
    (base_lines : List Bytes) (local_segments remote_segments : List Segment)
    → policy_a_survivors base_lines local_segments remote_segments
      ≡ select (λ i. covers local_segments i || covers remote_segments i) 0 base_lines
unfolding policy_a_survivors
policy_a_survivors-select base_lines a b =
    let fresh = replicate (length base_lines) false in
    let size = length-replicate (length base_lines) false in
    let size_a = length-mark_kept a fresh in
    let size_b = length-mark_kept b (mark_kept a fresh) in
    marked-select (λ i. covers a i || covers b i) 0 base_lines (mark_kept b (mark_kept a fresh))
      (omega arith)
      (λ j lt.
        let first : 0 + j ≡ j = omega arith in
        rw
          (
            first,
            get_or-mark_kept b (mark_kept a fresh) j (omega arith),
            get_or-mark_kept a fresh j (omega arith),
            get_or-replicate (length base_lines) j,
          )
          refl)
