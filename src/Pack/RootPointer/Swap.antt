-- ===== src/Pack/RootPointer/Swap.antt =====
-- `read` and `cas_write` of src/codec/pack/root_pointer.rs by one writer and by two.
use omemfs.Prelude.{◌≡◌, ◌≢◌, refl, sym, true, Option, none, some, Bool-cases, inl, inr}
use omemfs.Prelude.Bytes.{Bytes, bytes_eq→eq, bytes_eq_refl}
use omemfs.Prelude.Errors.{ok, err, cas_failed}
use omemfs.Pack.RootPointer.{token_eq, token_for, read, cas_write}

pub token_for-injective : (a b : Option Bytes) → token_eq (token_for a) (token_for b) ≡ true → a ≡ b
unfolding token_eq token_for
token_for-injective none none h = refl
token_for-injective none (some b) h = cc
token_for-injective (some a) none h = cc
token_for-injective (some a) (some b) h = rw (bytes_eq→eq a b h) refl

pub token_eq_refl : (a : Option Bytes) → token_eq (token_for a) (token_for a) ≡ true
unfolding token_eq token_for
token_eq_refl none = refl
token_eq_refl (some a) = bytes_eq_refl a

-- A write with the token of a read succeeds, and replaces the pointer, where the pointer still is
-- what was read; otherwise it fails and changes nothing.
pub cas_write_lem :
    (seen current : Option Bytes) (new : Bytes)
    → ((seen ≡ current) → cas_write (read seen).1 new current ≡ (ok tt, some new))
      × ((seen ≢ current) → cas_write (read seen).1 new current ≡ (err cas_failed, current))
unfolding cas_write read
cas_write_lem seen current new = (
  (λ e. rw (e, token_eq_refl current) refl),
  (λ n. elim (Bool-cases (token_eq (token_for current) (token_for seen))) [
    | inl p ↦ absurd (n (sym (token_for-injective current seen p)))
    | inr q ↦ rw q refl
  ]),
)

-- Of two writers that read the same pointer, the first to write succeeds, and the second fails and
-- changes nothing where the first has changed the pointer.
pub cas_write_race :
    (seen : Option Bytes) (first second : Bytes)
    → some first ≢ seen
    → (cas_write (read seen).1 first seen ≡ (ok tt, some first))
      × (cas_write (read seen).1 second (some first) ≡ (err cas_failed, some first))
cas_write_race seen first second n = (
  (cas_write_lem seen seen first).0 refl,
  (cas_write_lem seen (some first) second).1 (λ e. n (sym e)),
)
