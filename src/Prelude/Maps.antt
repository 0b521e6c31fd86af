-- ===== src/Prelude/Maps.antt =====
-- A `HashMap<String, V>` as an association list with one pair for each key, in the order of insertion.
use mathlib.Core.Path.{◌≡◌, refl, ap, subst}
use mathlib.Core.Logic.{inl, inr}
use mathlib.Core.List.{List, [], ◌∷◌}
use mathlib.Core.Option.{Option, none, some}
use native.Mathlib.Omega.{arith}
use omemfs.Prelude.Tests.{if◌then◌else◌, Bool-cases}
use omemfs.Prelude.Bytes.{Bytes, bytes_eq, bytes_eq→eq, bytes_eq_refl, bytes_eq_iff}

module _ {ℓ} {Value : Type ℓ} where
  unfoldable pub get : Bytes → List (Bytes × Value) → Option Value
  get path [] = none
  get path ((key, entry) ∷ entries) =
      let later = get path entries in if bytes_eq key path then some entry else later

  unfoldable pub insert : Bytes → Value → List (Bytes × Value) → List (Bytes × Value)
  insert path value [] = (path, value) ∷ []
  insert path value ((key, entry) ∷ entries) =
      let later = insert path value entries in
      if bytes_eq key path then (key, value) ∷ entries else (key, entry) ∷ later

  unfoldable pub remove : Bytes → List (Bytes × Value) → List (Bytes × Value)
  remove path [] = []
  remove path ((key, entry) ∷ entries) =
      let later = remove path entries in if bytes_eq key path then later else (key, entry) ∷ later

  pub get-insert :
      (path key : Bytes) (value : Value) (entries : List (Bytes × Value))
      → get path (insert key value entries)
        ≡ (if bytes_eq key path then some value else get path entries)
  unfolding get insert
  get-insert path key value [] = refl
  get-insert path key value ((other, entry) ∷ entries) = elim (Bool-cases (bytes_eq other key)) [
    | inl same ↦ let e = bytes_eq→eq other key same in rw (e, bytes_eq_refl key) (ground arith)
    | inr differs ↦ rw differs (
        ground (
          arith,
          get-insert path key value entries,
          bytes_eq_iff other path,
          bytes_eq_iff key path,
          bytes_eq_iff other key,
        ))
  ]

module _ {ℓ κ} {Value : Type ℓ} {Image : Type κ} where
  abbrev pub map_values : (Value → Image) → List (Bytes × Value) → List (Bytes × Image)
  map_values f [] = []
  map_values f ((key, entry) ∷ entries) = (key, f entry) ∷ map_values f entries

  pub map_values-insert :
      (f : Value → Image) (path : Bytes) (value : Value) (entries : List (Bytes × Value))
      → map_values f (insert path value entries) ≡ insert path (f value) (map_values f entries)
  unfolding insert
  map_values-insert f path value [] = refl
  map_values-insert f path value ((key, entry) ∷ entries) = elim (Bool-cases (bytes_eq key path)) [
    | inl same ↦ rw same refl
    | inr differs ↦
        rw differs (ap (λ m. (key, f entry) ∷ m) (map_values-insert f path value entries))
  ]

  pub get-map_values :
      (f : Value → Image) (path : Bytes) (entries : List (Bytes × Value))
      → get path (map_values f entries)
        ≡ elim (get path entries) [ none ↦ none | some value ↦ some (f value) ]
  unfolding get
  get-map_values f path [] = refl
  get-map_values f path ((key, entry) ∷ entries) = elim (Bool-cases (bytes_eq key path)) [
    | inl same ↦ rw same refl
    | inr differs ↦ rw differs (get-map_values f path entries)
  ]

module _ {ℓ κ} {Value : Type ℓ} (P : Value → Type κ) where
  -- Every value of a map.
  abbrev pub AllValues : List (Bytes × Value) → Type κ
  AllValues [] = Unit {κ}
  AllValues ((key, entry) ∷ entries) = P entry × AllValues entries

  pub AllValues-insert :
      (path : Bytes) (value : Value) (entries : List (Bytes × Value))
      → P value
      → AllValues entries
      → AllValues (insert path value entries)
  unfolding insert
  AllValues-insert path value [] p h = (p, tt)
  AllValues-insert path value ((key, entry) ∷ entries) p h = elim (Bool-cases (bytes_eq key path)) [
    | inl same ↦ rw same (p, h.1)
    | inr differs ↦ rw differs (h.0, AllValues-insert path value entries p h.1)
  ]

  pub AllValues-get :
      (path : Bytes) (entries : List (Bytes × Value)) (value : Value)
      → AllValues entries
      → get path entries ≡ some value
      → P value
  unfolding get
  AllValues-get path [] value h e = cc
  AllValues-get path ((key, entry) ∷ entries) value h e = elim (Bool-cases (bytes_eq key path)) [
    | inl same ↦ subst P (some_injective (rw same at e)) h.0
    | inr differs ↦ AllValues-get path entries value h.1 (rw differs at e)
  ]
    where
      some_injective : {a b : Value} → some a ≡ some b → a ≡ b
      some_injective f = cc

module _ {ℓ} {Value : Type ℓ} where
  -- The last insertion under a key counts.
  pub insert-insert :
      (path : Bytes) (first second : Value) (entries : List (Bytes × Value))
      → insert path second (insert path first entries) ≡ insert path second entries
  unfolding insert
  insert-insert path first second [] = rw (bytes_eq_refl path) refl
  insert-insert path first second ((key, entry) ∷ entries) = elim (Bool-cases (bytes_eq key path)) [
    | inl same ↦ rw (same, same) refl
    | inr differs ↦
        rw (differs, differs) (ap (λ m. (key, entry) ∷ m) (insert-insert path first second entries))
  ]

module _ {ℓ κ} {Value : Type ℓ} (P : Bytes → Type κ) where
  -- Every key of a map.
  abbrev pub AllKeys : List (Bytes × Value) → Type κ
  AllKeys [] = Unit {κ}
  AllKeys ((key, entry) ∷ entries) = P key × AllKeys entries

  pub AllKeys-insert :
      (path : Bytes) (value : Value) (entries : List (Bytes × Value))
      → P path
      → AllKeys entries
      → AllKeys (insert path value entries)
  unfolding insert
  AllKeys-insert path value [] p h = (p, tt)
  AllKeys-insert path value ((key, entry) ∷ entries) p h = elim (Bool-cases (bytes_eq key path)) [
    | inl same ↦ rw same (h.0, h.1)
    | inr differs ↦ rw differs (h.0, AllKeys-insert path value entries p h.1)
  ]
