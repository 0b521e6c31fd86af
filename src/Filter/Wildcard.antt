-- ===== src/Filter/Wildcard.antt =====
-- What `glob_match` of src/filter.rs decides, stated on the characters of the pattern.
use omemfs.Prelude.{
  ◌+◌, ◌-◌, ◌≡◌, refl, sym, ap, ◌∙◌, ◌↔◌, inl, inr, true, false, not, ◌&&◌, List, [], ◌∷◌, ◌++◌,
  some, ◌==◌, ==_iff, length, take, drop, arith, append_assoc, length-append, take-append-drop,
  drop_front, take_front, Bool-cases, Option-cases, append-nil,
}
use omemfs.Prelude.Bytes.{
  Bytes, bytes_eq_iff, strip_prefix, strip_prefix-append, strip_prefix_sound,
}
use omemfs.Object.Names.{has_char, ends_with}
use omemfs.Filter.Glob.{split_star, find_text, match_parts, match_first, glob_match}
use omemfs.Filter.Spread.{
  SlashFree, Globs, Spread, Spread-earlier, find_text_sound, find_text_first,
}

drop_part :
    (front part back : Bytes) → drop (length front + length part) (front ++ (part ++ back)) ≡ back
drop_part front part back =
    ap (λ t. drop (length front + length part) t) (sym (append_assoc front part back))
    ∙ drop_front (length front + length part) (front ++ part) back (length-append front part)

ends_with-append : (front s : Bytes) → ends_with (front ++ s) s ≡ true
unfolding ends_with
ends_with-append front s =
    let whole = length-append front s in
    let back : drop (length (front ++ s) - length s) (front ++ s) ≡ s =
      drop_front (length (front ++ s) - length s) front s (omega (arith, whole)) in
    let same = (bytes_eq_iff (drop (length (front ++ s) - length s) (front ++ s)) s).1 back in
    ground (arith, whole, same)

ends_with-drop :
    (remaining part : Bytes)
    → ends_with remaining part ≡ true
    → drop (length remaining - length part) remaining ≡ part
unfolding ends_with
ends_with-drop remaining part h =
    (bytes_eq_iff (drop (length remaining - length part) remaining) part).0 (ground arith)

-- What the loop tests of a last part.
ends_with_iff :
    (part remaining : Bytes)
    → ((ends_with remaining part
          && not (has_char b'/' (take (length remaining - length part) remaining)))
        ≡ true)
      ↔ ((skipped : Bytes) × (remaining ≡ skipped ++ part) × SlashFree skipped)
ends_with_iff part remaining = (
  (λ h.
      let k = length remaining - length part in
      (
        take k remaining,
        sym (take-append-drop k remaining)
            ∙ ap (λ t. take k remaining ++ t) (ends_with-drop remaining part (ground arith)),
        ground arith,
      )),
  (λ (skipped, e, free).
      let front : take (length (skipped ++ part) - length part) (skipped ++ part) ≡ skipped =
        take_front (length (skipped ++ part) - length part) skipped part
          (omega (arith, length-append skipped part)) in
      rw (e, ends_with-append skipped part, front, free) refl),
)

-- The round of a middle part that stands first after `front`.
match_parts_middle :
    (front part back next : Bytes) (parts : List Bytes)
    → find_text part (front ++ (part ++ back)) ≡ some (length front)
    → match_parts (part ∷ (next ∷ parts)) (front ++ (part ++ back))
      ≡ (not (has_char b'/' front) && match_parts (next ∷ parts) back)
unfolding match_parts
match_parts_middle front part back next parts found =
    rw
      (
        match_parts,
        found,
        take_front (length front) front (part ++ back) refl,
        drop_part front part back,
      )
      refl

match_parts_iff :
    (part : Bytes) (parts : List Bytes) (remaining : Bytes)
    → (match_parts (part ∷ parts) remaining ≡ true) ↔ Spread (part ∷ parts) remaining
unfolding match_parts Spread
match_parts_iff part [] remaining = (
  (λ h.
      let (skipped, e, free) = (ends_with_iff part remaining).0 h in
      (skipped, [], rw (append-nil part) e, free, refl)),
  (λ (skipped, rest, e, free, last).
      (ends_with_iff part remaining).1
        (skipped, cc (e, ap (λ t. skipped ++ (part ++ t)) last, append-nil part), free)),
)
match_parts_iff part (next ∷ parts) remaining = (
  (λ h. elim (Option-cases (find_text part remaining)) [
    | inl never ↦ ground arith
    | inr (pos, found) ↦
        let (front, back, e, l) = find_text_sound part remaining pos found in
        let step =
          match_parts_middle front part back next parts
            (ap (find_text part) (sym e) ∙ found ∙ ap some l) in
        let run : (not (has_char b'/' front) && match_parts (next ∷ parts) back) ≡ true =
          sym step ∙ ap (match_parts (part ∷ (next ∷ parts))) (sym e) ∙ h in
        (front, back, e, ground arith, (match_parts_iff next parts back).0 (ground arith))
  ]),
  (λ (skipped, rest, e, free, more).
      let (pos, found, small) = find_text_first part skipped rest in
      let (front, back, f, l) = find_text_sound part (skipped ++ (part ++ rest)) pos found in
      let (clean, spread) =
        Spread-earlier front skipped part back rest next parts (sym f) (omega arith) free more in
      let step =
        match_parts_middle front part back next parts
          (ap (find_text part) (sym f) ∙ found ∙ ap some l) in
      let matched = (match_parts_iff next parts back).1 spread in
      ap (match_parts (part ∷ (next ∷ parts))) (e ∙ f) ∙ step ∙ rw (clean, matched) refl),
)

-- What the whole loop looks for: the first part, and the others after it.
Starts : Bytes → List Bytes → Bytes → Type 0
unfolding Spread
Starts first parts name = (rest : Bytes) × (name ≡ first ++ rest) × Spread parts rest

split_star_ne_nil :
    (pattern : Bytes) → (f : Bytes) × (r : List Bytes) × (split_star pattern ≡ f ∷ r)
unfolding split_star
split_star_ne_nil [] = ([], [], refl)
split_star_ne_nil (c ∷ pattern) =
    let (f, r, e) = split_star_ne_nil pattern in
    elim (Bool-cases (c == b'*')) [
      | inl star ↦ ([], f ∷ r, rw (e, star) refl)
      | inr other ↦ (c ∷ f, r, rw (e, other) refl)
    ]

StartsOf : List Bytes → Bytes → Type 0
unfolding Starts
StartsOf [] name = ⊥
StartsOf (first ∷ parts) name = Starts first parts name

Globs-split : (pattern name : Bytes) → Globs pattern name ↔ StartsOf (split_star pattern) name
unfolding Globs StartsOf Starts Spread split_star
Globs-split [] name = ((λ h. ([], h, refl)), (λ (rest, e, last). e ∙ last))
Globs-split (c ∷ pattern) name =
    let (g, q, e) = split_star_ne_nil pattern in
    let ih : (n : Bytes) → Globs pattern n ↔ Starts g q n = λ n. rw e at (Globs-split pattern n) in
    elim (Bool-cases (c == b'*')) [
      | inl star ↦
          rw (e, star)
            (
              (λ h. elim h [
                | inl (is, skipped, rest, at_name, free, more) ↦
                    let (tail, f, spread) = (ih rest).0 more in
                    (name, refl, (skipped, tail, at_name ∙ ap (λ t. skipped ++ t) f, free, spread))
                | inr (differs, _, _, _) ↦ absurd (differs ((==_iff c b'*').0 star))
              ]),
              (λ (rest, same, (skipped, tail, f, free, spread)). inl (
                (==_iff c b'*').0 star,
                skipped,
                g ++ tail,
                same ∙ f,
                free,
                (ih (g ++ tail)).1 (tail, refl, spread),
              )),
            )
      | inr other ↦
          rw (e, other)
            (
              (λ h. elim h [
                | inl (is, _, _, _, _, _) ↦ absurd (ground arith)
                | inr (differs, rest, at_name, more) ↦
                    let (tail, f, spread) = (ih rest).0 more in
                    (tail, at_name ∙ ap (λ t. c ∷ t) f, spread)
              ]),
              (λ (tail, f, spread).
                  inr
                    ((λ is. ground arith), g ++ tail, f, (ih (g ++ tail)).1 (tail, refl, spread))),
            )
    ]

split_star_plain :
    (pattern : Bytes) → has_char b'*' pattern ≡ false → split_star pattern ≡ pattern ∷ []
unfolding split_star has_char
split_star_plain [] h = refl
split_star_plain (c ∷ pattern) h = ground (arith, split_star_plain pattern)

split_star_two :
    (pattern : Bytes)
    → has_char b'*' pattern ≡ true
    → (f : Bytes) × (g : Bytes) × (r : List Bytes) × (split_star pattern ≡ f ∷ (g ∷ r))
unfolding split_star has_char
split_star_two [] h = cc
split_star_two (c ∷ pattern) h = elim (Bool-cases (c == b'*')) [
  | inl star ↦ let (f, r, e) = split_star_ne_nil pattern in ([], f, r, rw (e, star) refl)
  | inr other ↦
      let (f, g, r, e) = split_star_two pattern (ground arith) in (c ∷ f, g, r, rw (e, other) refl)
]

match_first_iff :
    (f g : Bytes) (r : List Bytes) (name : Bytes)
    → (match_first (f ∷ (g ∷ r)) name ≡ true) ↔ Starts f (g ∷ r) name
unfolding match_first Starts
match_first_iff f g r name = (
  (λ h. elim (Option-cases (strip_prefix f name)) [
    | inl none_left ↦ ground arith
    | inr (rest, e) ↦
        (rest, strip_prefix_sound f name rest e, (match_parts_iff g r rest).0 (ground arith))
  ]),
  (λ (rest, e, more).
      rw (e, match_first, strip_prefix-append f rest) ((match_parts_iff g r rest).1 more)),
)

-- The match accepts a name exactly if the pattern describes it, where a star stands for any text
-- without a slash and every other character for itself.
pub glob_match_lem : (pattern name : Bytes) → (glob_match pattern name ≡ true) ↔ Globs pattern name
unfolding glob_match StartsOf Starts Spread
glob_match_lem pattern name = elim (Bool-cases (has_char b'*' pattern)) [
  | inl star ↦
      let (f, g, r, e) = split_star_two pattern star in
      let split = rw e at (Globs-split pattern name) in
      let run = match_first_iff f g r name in
      rw (star, e) ((λ h. split.1 (run.0 h)), (λ h. run.1 (split.0 h)))
  | inr plain ↦
      let split = rw (split_star_plain pattern plain) at (Globs-split pattern name) in
      let same = bytes_eq_iff pattern name in
      rw plain (
        (λ h. split.1 ([], sym (same.0 h) ∙ sym (append-nil pattern), refl)),
        (λ h.
            let (rest, e, last) = split.0 h in
            same.1 (sym (e ∙ ap (λ t. pattern ++ t) last ∙ append-nil pattern))),
      )
]
