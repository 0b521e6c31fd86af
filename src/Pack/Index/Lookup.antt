-- ===== src/Pack/Index/Lookup.antt =====
-- `push` and `find` of src/codec/pack/index.rs.
use omemfs.Prelude.{
  ◌≡◌, refl, true, List, [], ◌∷◌, none, some, if◌then◌else◌, get_elem?, All, Bool-cases, inl, inr,
  arith,
}
use omemfs.Prelude.Bytes.{
  Bytes, bytes_eq, bytes_eq_iff, bytes_eq→eq, bytes_lt_irrefl, bytes_lt_trans, bytes_lt_tri,
}
use omemfs.Object.Digest.{Digest, digest_eq, digest_lt}
use omemfs.Object.Digest.Canonical.{IsHash, digest_eq-hex}
use omemfs.Pack.Index.{
  IndexEntry, hash_of, partition_point, matches, push, find_hash, above, is_sorted,
}

abbrev key : IndexEntry → Bytes
key e = (hash_of e).hex

-- The two operations entry by entry.
find_hash_step :
    (hash : Digest) (e : IndexEntry) (es : List IndexEntry)
    → find_hash hash (e ∷ es) ≡ (
        if digest_lt (hash_of e) hash
        then find_hash hash es
        else if digest_eq (hash_of e) hash
        then some e
        else none)
unfolding find_hash partition_point
find_hash_step hash e es = elim (Bool-cases (digest_lt (hash_of e) hash)) [
  | inl p ↦ rw p
  | inr n ↦ rw n
]

push_step :
    (x e : IndexEntry) (es : List IndexEntry)
    → push x (e ∷ es) ≡ (
        if digest_lt (hash_of e) (hash_of x)
        then e ∷ push x es
        else if digest_eq (hash_of e) (hash_of x)
        then x ∷ es
        else x ∷ (e ∷ es))
unfolding push partition_point
push_step x e es = elim (Bool-cases (digest_lt (hash_of e) (hash_of x))) [
  | inl p ↦
      let found = matches (hash_of x) (get_elem? es (partition_point (hash_of x) es)) in
      elim (Bool-cases found) [ inl q ↦ rw (p, q) | inr q ↦ rw (p, q) ]
  | inr n ↦ rw n
]

push-nil : (x : IndexEntry) → push x [] ≡ x ∷ []
unfolding push partition_point
push-nil x = refl

find_hash-nil : (hash : Digest) → find_hash hash [] ≡ none
unfolding find_hash partition_point
find_hash-nil hash = refl

abbrev pub Hashed : List IndexEntry → Type 0
Hashed es = All (λ e. IsHash (hash_of e)) es

-- For hashes made from 32 bytes: after a push the hash of the pushed entry finds that entry, and
-- every other hash finds what it found before.
pub find_hash-push :
    (hash : Digest) (x : IndexEntry) (es : List IndexEntry)
    → IsHash hash
    → IsHash (hash_of x)
    → Hashed es
    → find_hash hash (push x es)
      ≡ (if digest_eq (hash_of x) hash then some x else find_hash hash es)
find_hash-push hash x [] k i h =
    rw (push-nil x, find_hash_step hash x [], find_hash-nil hash, digest_eq-hex _ _ i k)
      (unfold digest_lt in ground (arith, bytes_lt_irrefl (key x), bytes_eq_iff (key x) hash.hex))
find_hash-push hash x (e ∷ es) k i (j, h) =
    let ih = find_hash-push hash x es k i h in
    rw (push_step x e es, digest_eq-hex _ _ j i, digest_eq-hex _ _ i k)
      (elim (Bool-cases (digest_lt (hash_of e) (hash_of x))) [
        | inl p ↦
            rw
              (
                p,
                find_hash_step hash e (push x es),
                find_hash_step hash e es,
                ih,
                digest_eq-hex _ _ j k,
                digest_eq-hex _ _ i k,
              )
              (unfold digest_lt in
                ground (
                  arith,
                  bytes_lt_trans (key e) (key x) hash.hex,
                  bytes_lt_irrefl (key x),
                  bytes_lt_irrefl (key e),
                  bytes_eq_iff (key x) hash.hex,
                  bytes_eq_iff (key e) hash.hex,
                  p,
                ))
        | inr n ↦ elim (Bool-cases (bytes_eq (key e) (key x))) [
          | inl q ↦
              rw
                (
                  n,
                  q,
                  find_hash_step hash x es,
                  find_hash_step hash e es,
                  digest_eq-hex _ _ i k,
                  digest_eq-hex _ _ j k,
                )
                (let same : key e ≡ key x = bytes_eq→eq _ _ q in
                  unfold digest_lt in
                  rw same (ground (arith, bytes_lt_irrefl (key x), bytes_eq_iff (key x) hash.hex)))
          | inr m ↦
              rw
                (
                  n,
                  m,
                  find_hash_step hash x (e ∷ es),
                  find_hash_step hash e es,
                  digest_eq-hex _ _ i k,
                  digest_eq-hex _ _ j k,
                )
                (unfold digest_lt in
                  ground (
                    arith,
                    bytes_lt_trans (key x) (key e) hash.hex,
                    bytes_lt_trans hash.hex (key x) (key e),
                    bytes_lt_tri (key e) (key x),
                    bytes_lt_irrefl (key x),
                    bytes_lt_irrefl (key e),
                    bytes_lt_irrefl hash.hex,
                    bytes_lt_trans hash.hex (key x) hash.hex,
                    bytes_eq_iff (key e) (key x),
                    bytes_eq_iff (key x) hash.hex,
                    bytes_eq_iff (key e) hash.hex,
                    n,
                  ))
        ]
      ])

-- For hashes made from 32 bytes: where the entries are sorted by hash, each hash once, they are so
-- after a push.
pub push_sorted :
    (x : IndexEntry) (es : List IndexEntry)
    → IsHash (hash_of x)
    → Hashed es
    → is_sorted es ≡ true
    → is_sorted (push x es) ≡ true
unfolding is_sorted above digest_lt
push_sorted x [] i h s = rw (push-nil x) refl
push_sorted x (e ∷ []) i (j, h) s =
    rw (push_step x e [], push-nil x, digest_eq-hex _ _ j i)
      (ground (arith, bytes_lt_tri (key e) (key x), bytes_eq_iff (key e) (key x)))
push_sorted x (e ∷ (f ∷ fs)) i (j, (k, h)) s =
    let ih = rw (push_step x f fs, digest_eq-hex _ _ k i) at (push_sorted x (f ∷ fs) i (k, h)) in
    rw (push_step x e (f ∷ fs), push_step x f fs, digest_eq-hex _ _ j i, digest_eq-hex _ _ k i)
      (ground (
        arith,
        ih,
        bytes_lt_tri (key e) (key x),
        bytes_eq_iff (key e) (key x),
        bytes_eq_iff (key f) (key x),
      ))
