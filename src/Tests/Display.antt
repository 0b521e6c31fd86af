-- ===== src/Tests/Display.antt =====
-- A name that would colour the terminal.
use omemfs.Prelude.{ℕ, ◌≡◌, refl, List, ◌∷◌, false, All}
use omemfs.Prelude.Bytes.{codes}
use omemfs.Object.Digest.{hex_digit}
use omemfs.Escape.{needs_escape, hex_2, escape_char, escape_chars, escape}
use omemfs.Escape.Safe.{Printable, escape_safe}

abbrev colouring : List ℕ
colouring = 27 ∷ codes "[31m"

escape_safe_example :
    All (Printable false) (escape colouring false)
    × (All (Printable false) colouring → escape colouring false ≡ colouring)
escape_safe_example = escape_safe colouring false

coloured : escape colouring false ≡ codes "\\x1b[31m"
unfolding escape escape_chars escape_char hex_2 hex_digit needs_escape
coloured = refl
