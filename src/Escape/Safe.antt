-- ===== src/Escape/Safe.antt =====
-- The characters of the output of `escape` of src/term/escape.rs.
use omemfs.Prelude.{
  ℕ, ◌/◌, ◌%◌, ◌<◌, ◌≤◌, ◌≡◌, ◌≢◌, ◌⊎◌, All, refl, ◌∙◌, Bool, true, false, not, ◌||◌, List, [], ◌∷◌,
  ◌++◌, leb, ◌==◌, any, all_below, all_below_sound, Bool-cases, inl, inr, arith,
}
use omemfs.Prelude.Bytes.{codes}
use omemfs.Object.Digest.{hex_digit}
use omemfs.Escape.{needs_escape, hex_2, hex_4, escape_char, escape_chars, escape}

-- Whether a character is unsafe under either setting.
abbrev unsafe : ℕ → Bool
unsafe c = needs_escape c true || needs_escape c false

digit_table : all_below 16 (λ i. not (unsafe (hex_digit i))) ≡ true
unfolding all_below needs_escape hex_digit
digit_table = refl

digit_safe : (i : ℕ) (keep : Bool) → i < 16 → needs_escape (hex_digit i) keep ≡ false
digit_safe i true h =
    let t = all_below_sound 16 (λ i. not (unsafe (hex_digit i))) i digit_table h in ground arith
digit_safe i false h =
    let t = all_below_sound 16 (λ i. not (unsafe (hex_digit i))) i digit_table h in ground arith

any-append : (p : ℕ → Bool) (xs ys : List ℕ) → any p (xs ++ ys) ≡ (any p xs || any p ys)
any-append p [] ys = refl
any-append p (x ∷ xs) ys = let ih = any-append p xs ys in ground arith

abbrev has_unsafe : Bool → List ℕ → Bool
has_unsafe keep s = any (λ c. needs_escape c keep) s

hex_2_safe : (c : ℕ) (keep : Bool) → has_unsafe keep (hex_2 c) ≡ false
unfolding hex_2
hex_2_safe c keep =
    rw (digit_safe (c / 16 % 16) keep (omega arith), digit_safe (c % 16) keep (omega arith)) refl

hex_4_safe : (c : ℕ) (keep : Bool) → has_unsafe keep (hex_4 c) ≡ false
unfolding hex_4
hex_4_safe c keep =
    rw
      (
        digit_safe (c / 4096 % 16) keep (omega arith),
        digit_safe (c / 256 % 16) keep (omega arith),
        hex_2_safe c keep,
      )
      refl

module _ (keep : Bool) where
  -- The fixed parts of the escapes.
  fixed_safe :
      (has_unsafe keep (codes "\\n") ≡ false)
      × (has_unsafe keep (codes "\\r") ≡ false)
      × (has_unsafe keep (codes "\\t") ≡ false)
      × (has_unsafe keep (codes "\\x") ≡ false)
      × (has_unsafe keep (codes "\\u{") ≡ false)
      × (has_unsafe keep (codes "}") ≡ false)
  unfolding needs_escape
  fixed_safe = (refl, refl, refl, refl, refl, refl)

  escape_char_safe : (c : ℕ) → has_unsafe keep (escape_char c) ≡ false
  unfolding escape_char
  escape_char_safe c =
      let (n, r, t, x, u, close) = fixed_safe in
      let two = any-append (λ c. needs_escape c keep) (codes "\\x") (hex_2 c) in
      let four = any-append (λ c. needs_escape c keep) (codes "\\u{") (hex_4 c ++ codes "}") in
      let end = any-append (λ c. needs_escape c keep) (hex_4 c) (codes "}") in
      let as_x = two ∙ (rw (x, hex_2_safe c keep) refl) in
      let as_u = four ∙ (rw (u, end, hex_4_safe c keep, close) refl) in
      elim (Bool-cases (c == 0x0A)) [
        | inl a ↦ rw a n
        | inr a ↦ elim (Bool-cases (c == 0x0D)) [
          | inl b ↦ rw (a, b) r
          | inr b ↦ elim (Bool-cases (c == 0x09)) [
            | inl d ↦ rw (a, b, d) t
            | inr d ↦ elim (Bool-cases (leb c 0x1F || (c == 0x7F))) [
              | inl e ↦ rw (a, b, d, e) as_x
              | inr e ↦ rw (a, b, d, e) as_u
            ]
          ]
        ]
      ]

  escape_chars_safe : (s : List ℕ) → has_unsafe keep (escape_chars s keep) ≡ false
  unfolding escape_chars
  escape_chars_safe [] = refl
  escape_chars_safe (c ∷ cs) = elim (Bool-cases (needs_escape c keep)) [
    | inl bad ↦
        rw
          (
            bad,
            any-append (λ c. needs_escape c keep) (escape_char c) (escape_chars cs keep),
            escape_char_safe c,
            escape_chars_safe cs,
          )
          refl
    | inr good ↦ rw (good, good, escape_chars_safe cs) refl
  ]

escape_unsafe_free : (s : List ℕ) (keep : Bool) → has_unsafe keep (escape s keep) ≡ false
unfolding escape
escape_unsafe_free s keep = elim (Bool-cases (has_unsafe keep s)) [
  | inl bad ↦ rw bad (escape_chars_safe keep s)
  | inr good ↦ rw (good, good) refl
]

-- The control characters of Unicode: those below the space, and DEL to 0x9F.
abbrev pub IsControl : ℕ → Type 0
IsControl c = (c ≤ 0x1F) ⊎ ((0x7F ≤ c) × (c ≤ 0x9F))

-- The separators of lines and paragraphs, the embeddings and overrides of a text's direction with
-- their end, and its isolates with theirs.
abbrev pub breaking : List ℕ
breaking =
    0x2028 ∷ 0x2029 ∷ 0x202A ∷ 0x202B ∷ 0x202C ∷ 0x202D ∷ 0x202E ∷ 0x2066 ∷ 0x2067 ∷ 0x2068 ∷ 0x2069
    ∷ []

-- What may be printed: a line feed or a tab where the caller keeps them, and what is harmless.
abbrev pub Harmless : ℕ → Type 0
Harmless c = ¬ IsControl c × All (λ b. c ≢ b) breaking

abbrev pub Printable : Bool → ℕ → Type 0
Printable keep c = ((keep ≡ true) × ((c ≡ 0x0A) ⊎ (c ≡ 0x09))) ⊎ Harmless c

needs_escape-Printable : (c : ℕ) (keep : Bool) → needs_escape c keep ≡ false → Printable keep c
unfolding needs_escape
needs_escape-Printable c keep h = ground arith

Printable-needs_escape : (c : ℕ) (keep : Bool) → Printable keep c → needs_escape c keep ≡ false
unfolding needs_escape
Printable-needs_escape c keep h = ground arith

unsafe_free_sound : (s : List ℕ) (keep : Bool) → has_unsafe keep s ≡ false → All (Printable keep) s
unsafe_free_sound [] keep h = tt
unsafe_free_sound (c ∷ s) keep h =
    (needs_escape-Printable c keep (ground arith), unsafe_free_sound s keep (ground arith))

unsafe_free_complete :
    (s : List ℕ) (keep : Bool) → All (Printable keep) s → has_unsafe keep s ≡ false
unsafe_free_complete [] keep h = refl
unsafe_free_complete (c ∷ s) keep h =
    rw (Printable-needs_escape c keep h.0, unsafe_free_complete s keep h.1) refl

-- No character of an escaped text is a control, a separator of lines or paragraphs, or an
-- embedding, override or isolate of the text's direction or the end of one, but for line feeds and
-- tabs where the caller keeps them. A text of which this already holds is left as it is.
pub escape_safe :
    (s : List ℕ) (keep : Bool)
    → All (Printable keep) (escape s keep) × (All (Printable keep) s → escape s keep ≡ s)
unfolding escape
escape_safe s keep = (
  unsafe_free_sound (escape s keep) keep (escape_unsafe_free s keep),
  λ h. rw (unsafe_free_complete s keep h) refl,
)
