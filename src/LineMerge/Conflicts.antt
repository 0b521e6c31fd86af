-- ===== src/LineMerge/Conflicts.antt =====
-- `has_conflict` of src/line_merge.rs with its sides exchanged.
use omemfs.Prelude.{◌≡◌, refl, ap₂, sym, ◌∙◌, Bool, false, ◌||◌, List, [], ◌∷◌, any, arith}
use omemfs.LineMerge.{ChangeSegment, Segment, ranges_overlap, changes, has_conflict}

module _ {A : Type 0} where
  any_or : (p q : A → Bool) (xs : List A) → any (λ x. p x || q x) xs ≡ (any p xs || any q xs)
  any_or p q [] = refl
  any_or p q (x ∷ xs) = let ih = any_or p q xs in ground arith

  any-false : (xs : List A) → any (λ x. false) xs ≡ false
  any-false [] = refl
  any-false (x ∷ xs) = any-false xs

  any_ext : (p q : A → Bool) → ((x : A) → p x ≡ q x) → (xs : List A) → any p xs ≡ any q xs
  any_ext p q h [] = refl
  any_ext p q h (x ∷ xs) = ap₂ (λ a b. a || b) (h x) (any_ext p q h xs)

  any_swap :
      (p : A → A → Bool) (xs ys : List A)
      → any (λ x. any (p x) ys) xs ≡ any (λ y. any (λ x. p x y) xs) ys
  any_swap p [] ys = sym (any-false ys)
  any_swap p (x ∷ xs) ys = rw (any_swap p xs ys) (sym (any_or (p x) (λ y. any (λ z. p z y) xs) ys))

ranges_overlap_comm : (a b : ChangeSegment) → ranges_overlap a b ≡ ranges_overlap b a
unfolding ranges_overlap
ranges_overlap_comm a b = ground arith

-- Two sides conflict one way round exactly if they conflict the other way round.
pub has_conflict_comm : (a b : List Segment) → has_conflict a b ≡ has_conflict b a
unfolding has_conflict
has_conflict_comm a b =
    any_swap ranges_overlap (changes a) (changes b)
    ∙ any_ext (λ r. any (λ l. ranges_overlap l r) (changes a))
        (λ r. any (λ l. ranges_overlap r l) (changes a))
        (λ r.
          any_ext (λ l. ranges_overlap l r) (λ l. ranges_overlap r l) (λ l. ranges_overlap_comm l r)
            (changes a))
        (changes b)
