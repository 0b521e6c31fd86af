-- ===== src/Base32/RoundTrip.antt =====
-- `encode` of src/base32.rs followed by `decode`, the two run side by side.
use omemfs.Prelude.{
  ℕ, ◌+◌, ◌*◌, ◌/◌, ◌%◌, ◌^◌, ◌<◌, ◌≡◌, refl, true, [], ◌∷◌, ◌==◌, ==_iff, All, all_below,
  all_below_sound, arith,
}
use omemfs.Prelude.Bytes.{Bytes, IsByte}
use omemfs.Base32.{
  ok, letter, value, take_letters, encode_loop, encode, take_bytes, prepend, decode_loop, decode,
}

value_table : all_below 32 (λ i. value (letter i) == i) ≡ true
unfolding all_below value letter
value_table = refl

value-letter : (i : ℕ) → i < 32 → value (letter i) ≡ i
value-letter i h = (==_iff _ i).0 (all_below_sound 32 _ i value_table h)

-- A letter of the alphabet is never refused.
decode_letter :
    (x : ℕ) (rest : Bytes) (buf bits : ℕ)
    → decode_loop (letter (x % 32) ∷ rest) buf bits ≡ (
        let (out, left) = take_bytes (buf * 32 % 2 ^ 64 + x % 32) (bits + 5) in
        prepend out (decode_loop rest (buf * 32 % 2 ^ 64 + x % 32) left))
unfolding decode_loop
decode_letter x rest buf bits = rw (value-letter (x % 32) (omega arith)) (ground arith)

decode_end : (buf bits : ℕ) → decode_loop [] buf bits ≡ ok []
unfolding decode_loop
decode_end buf bits = refl

-- In each state the encoder holds `b` bits that it has not written and the decoder 8 - `b` bits
-- that it has not written; they are the two parts of one byte `p`.
abbrev Pending : ℕ → ℕ → ℕ → ℕ → ℕ → Type 0
Pending b d e f p = (f % 2 ^ d ≡ p / 2 ^ b) × (e % 2 ^ b ≡ p % 2 ^ b) × (p < 256)

-- What is still to be shown of the bytes behind, in the state that a byte leads to.
abbrev Ahead : ℕ → ℕ → Bytes → Type 0
Ahead b d rest =
    (e f p : ℕ) → Pending b d e f p → decode_loop (encode_loop rest e b) f d ≡ ok (p ∷ rest)

abbrev push_byte : ℕ → ℕ → ℕ
push_byte e q = e * 256 % 2 ^ 64 + q

abbrev push_letter : ℕ → ℕ → ℕ
push_letter f x = f * 32 % 2 ^ 64 + x % 32

step0 :
    (q : ℕ) (rest : Bytes) (e f : ℕ)
    → q < 256
    → Ahead 3 5 rest
    → decode_loop (encode_loop (q ∷ rest) e 0) f 0 ≡ ok (q ∷ rest)
unfolding encode_loop take_letters take_bytes prepend
step0 q rest e f h ih =
    let e' = push_byte e q in rw decode_letter (rw (ih e' (push_letter f (e' / 8)) q (omega arith)))

step3 : (q : ℕ) (rest : Bytes) → q < 256 → Ahead 1 7 rest → Ahead 3 5 (q ∷ rest)
unfolding encode_loop take_letters take_bytes prepend
step3 q rest h ih e f p k =
    let e' = push_byte e q in
    let f' = push_letter f (e' / 2 ^ 6) in
    let out : f' / 2 ^ 2 % 256 ≡ p = omega arith in
    rw (decode_letter, decode_letter, ih e' (push_letter f' (e' / 2)) q (omega arith), out)

step1 : (q : ℕ) (rest : Bytes) → q < 256 → Ahead 4 4 rest → Ahead 1 7 (q ∷ rest)
unfolding encode_loop take_letters take_bytes prepend
step1 q rest h ih e f p k =
    let e' = push_byte e q in
    let f' = push_letter f (e' / 2 ^ 4) in
    let out : f' / 2 ^ 4 % 256 ≡ p = omega arith in
    rw (decode_letter, ih e' f' q (omega arith), out)

step4 : (q : ℕ) (rest : Bytes) → q < 256 → Ahead 2 6 rest → Ahead 4 4 (q ∷ rest)
unfolding encode_loop take_letters take_bytes prepend
step4 q rest h ih e f p k =
    let e' = push_byte e q in
    let f' = push_letter f (e' / 2 ^ 7) in
    let out : f' / 2 % 256 ≡ p = omega arith in
    rw (decode_letter, decode_letter, ih e' (push_letter f' (e' / 2 ^ 2)) q (omega arith), out)

step2 :
    (q : ℕ) (rest : Bytes)
    → q < 256
    → ((e f : ℕ) → decode_loop (encode_loop rest e 0) f 0 ≡ ok rest)
    → Ahead 2 6 (q ∷ rest)
unfolding encode_loop take_letters take_bytes prepend
step2 q rest h ih e f p k =
    let e' = push_byte e q in
    let f' = push_letter f (e' / 2 ^ 5) in
    let f'' = push_letter f' (e' / 1) in
    let out : f' / 2 ^ 3 % 256 ≡ p = omega arith in
    let next : f'' / 1 % 256 ≡ q = omega arith in
    rw (decode_letter, decode_letter, ih e' f'', out, next)

end3 : Ahead 3 5 []
unfolding encode_loop take_bytes prepend
end3 e f p k =
    let out : push_letter f (e * 4 % 2 ^ 64) / 2 ^ 2 % 256 ≡ p = omega arith in
    rw (decode_letter, decode_end, out)

end1 : Ahead 1 7 []
unfolding encode_loop take_bytes prepend
end1 e f p k =
    let out : push_letter f (e * 16 % 2 ^ 64) / 2 ^ 4 % 256 ≡ p = omega arith in
    rw (decode_letter, decode_end, out)

end4 : Ahead 4 4 []
unfolding encode_loop take_bytes prepend
end4 e f p k =
    let out : push_letter f (e * 2 % 2 ^ 64) / 2 % 256 ≡ p = omega arith in
    rw (decode_letter, decode_end, out)

end2 : Ahead 2 6 []
unfolding encode_loop take_bytes prepend
end2 e f p k =
    let out : push_letter f (e * 8 % 2 ^ 64) / 2 ^ 3 % 256 ≡ p = omega arith in
    rw (decode_letter, decode_end, out)

end0 : (e f : ℕ) → decode_loop (encode_loop [] e 0) f 0 ≡ ok []
unfolding encode_loop decode_loop
end0 e f = refl

mutual
  run0 :
      (rest : Bytes)
      → All IsByte rest
      → (e f : ℕ) → decode_loop (encode_loop rest e 0) f 0 ≡ ok rest
  run0 [] h e f = end0 e f
  run0 (q ∷ rest) h e f = step0 q rest e f h.0 (run3 rest h.1)

  run3 : (rest : Bytes) → All IsByte rest → Ahead 3 5 rest
  run3 [] h = end3
  run3 (q ∷ rest) h = step3 q rest h.0 (run1 rest h.1)

  run1 : (rest : Bytes) → All IsByte rest → Ahead 1 7 rest
  run1 [] h = end1
  run1 (q ∷ rest) h = step1 q rest h.0 (run4 rest h.1)

  run4 : (rest : Bytes) → All IsByte rest → Ahead 4 4 rest
  run4 [] h = end4
  run4 (q ∷ rest) h = step4 q rest h.0 (run2 rest h.1)

  run2 : (rest : Bytes) → All IsByte rest → Ahead 2 6 rest
  run2 [] h = end2
  run2 (q ∷ rest) h = step2 q rest h.0 (run0 rest h.1)

-- Decoding the encoding of any byte string gives the byte string back.
pub decode-encode : (input : Bytes) → All IsByte input → decode (encode input) ≡ ok input
unfolding decode encode
decode-encode input h = run0 input h 0 0
