-- ===== src/Pack/RootPointer/Runs.antt =====
-- Many writers on the pointer of src/codec/pack/root_pointer.rs. A writer reads the pointer, makes the
-- new one from what it read, and writes it with the token of its read; the steps of different writers
-- come in any order.
use omemfs.Prelude.{
  ℕ, ◌≡◌, refl, sym, ap, ◌∙◌, ◌⊎◌, Bool, true, false, List, [], ◌∷◌, Option, none, some, ◌==◌,
  if◌then◌else◌, Bool-cases, inl, inr,
}
use omemfs.Prelude.Bytes.{Bytes}
use omemfs.Prelude.Errors.{Result, ok, err, cas_failed}
use omemfs.Pack.RootPointer.{RootToken, token_eq, token_for, read, cas_write}
use omemfs.Pack.RootPointer.Swap.{token_for-injective}

-- How a writer makes the new pointer from the one it read.
abbrev pub Update : Type 0
Update = Option Bytes → Bytes

pub data Event : Type 0 where
  reads : (writer : ℕ) → Event
  writes : (writer : ℕ) (update : Update) → Event

-- What the writers read last.
abbrev pub Seen : Type 0
Seen = ℕ → Option (Option Bytes × RootToken)

pub record World : Type 0 where
  pub pointer : Option Bytes
  pub seen : Seen

-- What a write gives back, by what the writer read: nothing where it has read nothing.
unfoldable pub write_of :
    Option (Option Bytes × RootToken) → Update → Option Bytes → Result (Unit {0}) × Option Bytes
write_of none update pointer = (err cas_failed, pointer)
write_of (some (bytes, token)) update pointer = cas_write token (update bytes) pointer

unfoldable pub step : Event → World → World
unfolding write_of
step (reads writer) world = record world {
  seen = λ w. if w == writer then some (read world.pointer) else world.seen w;
}
step (writes writer update) world = record world {
  pointer = (write_of (world.seen writer) update world.pointer).1;
}

unfoldable pub run : List Event → World → World
unfolding step
run [] world = world
run (event ∷ events) world = run events (step event world)

abbrev pub succeeded : Result (Unit {0}) → Bool
succeeded (ok _) = true
succeeded (err _) = false

-- The updates whose write succeeded, in order.
unfoldable pub applied : List Event → World → List Update
unfolding step write_of
applied [] world = []
applied (reads writer ∷ events) world = applied events (step (reads writer) world)
applied (writes writer update ∷ events) world =
    let later = applied events (step (writes writer update) world) in
    if succeeded (write_of (world.seen writer) update world.pointer).0
    then update ∷ later
    else later

-- The same updates, each one made in a single step on what the pointer then is.
unfoldable pub apply_all : List Update → Option Bytes → Option Bytes
apply_all [] pointer = pointer
apply_all (update ∷ updates) pointer = apply_all updates (some (update pointer))

-- Every token that a writer holds is that of the bytes it read.
abbrev pub HoldsTokens : Seen → Type 0
HoldsTokens seen =
    (writer : ℕ) (bytes : Option Bytes) (token : RootToken)
    → seen writer ≡ some (bytes, token)
    → token ≡ token_for bytes

write_cases :
    (held : Option (Option Bytes × RootToken)) (update : Update) (pointer : Option Bytes)
    → ((bytes : Option Bytes) (token : RootToken)
        → held ≡ some (bytes, token)
        → token ≡ token_for bytes)
    → (write_of held update pointer ≡ (ok tt, some (update pointer)))
      ⊎ (write_of held update pointer ≡ (err cas_failed, pointer))
unfolding write_of cas_write
write_cases none update pointer h = inr refl
write_cases (some (bytes, token)) update pointer h =
    let own : token ≡ token_for bytes = h bytes token refl in
    elim (Bool-cases (token_eq (token_for pointer) token)) [
      | inr differs ↦ inr (rw differs refl)
      | inl same ↦ inl (
          let e =
            token_for-injective pointer bytes
              (ap (token_eq (token_for pointer)) (sym own) ∙ same) in
          rw same (ap (λ b. (ok tt, some (update b))) (sym e)))
    ]

step-HoldsTokens :
    (event : Event) (world : World) → HoldsTokens world.seen → HoldsTokens (step event world).seen
unfolding step read
step-HoldsTokens (writes writer update) world h = h
step-HoldsTokens (reads reader) world h = λ writer bytes token e.
    elim (Bool-cases (writer == reader)) [
      | inl own ↦ let f = rw own at e in cc
      | inr another ↦ h writer bytes token (rw another at e)
    ]

-- However the reads and writes of the writers interleave, where each token held is that of the
-- bytes read with it, the pointer ends up as if each update whose write succeeded had been made in
-- one step on the pointer as it then was, and the others not at all.
pub run-apply_all :
    (events : List Event) (world : World)
    → HoldsTokens world.seen
    → (run events world).pointer ≡ apply_all (applied events world) world.pointer
unfolding run applied apply_all
run-apply_all [] world h = refl
run-apply_all (reads writer ∷ events) world h =
    run-apply_all events (step (reads writer) world) (step-HoldsTokens (reads writer) world h)
run-apply_all (writes writer update ∷ events) world h =
    let after = step (writes writer update) world in
    let rest = run-apply_all events after (step-HoldsTokens (writes writer update) world h) in
    elim (write_cases (world.seen writer) update world.pointer (h writer)) [
      | inl done ↦ rest ∙ rw done refl
      | inr refused ↦ rest ∙ rw refused refl
    ]
