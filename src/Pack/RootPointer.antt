-- ===== src/Pack/RootPointer.antt =====
-- src/codec/pack/root_pointer.rs: the pointer to the index root, replaced by compare-and-swap. The
-- bytes stored locally are its version token. The lock makes a `cas_write` one step.
pub mod Runs
pub mod Swap
use omemfs.Prelude.{ℕ, Bool, true, false, List, [], ◌∷◌, Option, none, some, if◌then◌else◌}
use omemfs.Prelude.Bytes.{Bytes, bytes_eq}
use omemfs.Prelude.Errors.{Error, Result, ok, err, cas_failed}

pub data RootToken : Type 0 where
  is_absent : RootToken
  present : Bytes → RootToken

-- `PartialEq` of `RootToken`
pub token_eq : RootToken → RootToken → Bool
token_eq is_absent is_absent = true
token_eq (present a) (present b) = bytes_eq a b
token_eq _ _ = false

-- `token_for`
pub token_for : Option Bytes → RootToken
token_for none = is_absent
token_for (some bytes) = present bytes

-- `read`, of the file at the pointer's path.
pub read : Option Bytes → Option Bytes × RootToken
read current = (current, token_for current)

-- `cas_write`: the result, and the file after it.
pub cas_write : RootToken → Bytes → Option Bytes → Result (Unit {0}) × Option Bytes
cas_write expected new current =
    if token_eq (token_for current) expected then (ok tt, some new) else (err cas_failed, current)
