-- ===== src/Escape.antt =====
-- src/term/escape.rs: what is printed of names that nobody vouches for. A text is its list of characters.
pub mod Safe
use omemfs.Prelude.{
  ℕ, ◌/◌, ◌%◌, Bool, true, false, not, ◌&&◌, ◌||◌, List, [], ◌∷◌, ◌++◌, leb, ◌==◌, if◌then◌else◌,
  any,
}
use omemfs.Prelude.Bytes.{codes}
use omemfs.Object.Digest.{hex_digit}

unfoldable pub needs_escape : ℕ → Bool → Bool
needs_escape c keep_lf_tab =
    if c == 0x0A || c == 0x09
    then not keep_lf_tab
    else if c == 0x0D
    then true
    else if leb c 0x1F || ((c == 0x7F) || (leb 0x80 c && leb c 0x9F))
    then true
    else (c == 0x2028)
      || ((c == 0x2029) || ((leb 0x202A c && leb c 0x202E) || (leb 0x2066 c && leb c 0x2069)))

-- `{:02x}` of a character below 256, and `{:04x}` of one below 65536, as every one that is escaped is.
unfoldable pub hex_2 : ℕ → List ℕ
hex_2 c = hex_digit (c / 16 % 16) ∷ (hex_digit (c % 16) ∷ [])

unfoldable pub hex_4 : ℕ → List ℕ
hex_4 c = hex_digit (c / 4096 % 16) ∷ (hex_digit (c / 256 % 16) ∷ hex_2 c)

unfoldable pub escape_char : ℕ → List ℕ
escape_char c =
    if c == 0x0A
    then codes "\\n"
    else if c == 0x0D
    then codes "\\r"
    else if c == 0x09
    then codes "\\t"
    else if leb c 0x1F || (c == 0x7F)
    then codes "\\x" ++ hex_2 c
    else codes "\\u{" ++ (hex_4 c ++ codes "}")

unfoldable pub escape_chars : List ℕ → Bool → List ℕ
escape_chars [] keep_lf_tab = []
escape_chars (c ∷ cs) keep_lf_tab =
    let rest = escape_chars cs keep_lf_tab in
    if needs_escape c keep_lf_tab then escape_char c ++ rest else c ∷ rest

unfoldable pub escape : List ℕ → Bool → List ℕ
escape s keep_lf_tab =
    if any (λ c. needs_escape c keep_lf_tab) s then escape_chars s keep_lf_tab else s

unfoldable pub escape_display : List ℕ → List ℕ
escape_display s = escape s false

unfoldable pub escape_display_multiline : List ℕ → List ℕ
escape_display_multiline s = escape s true
