-- ===== src/Pull/Diff/Rounds.antt =====
-- The rounds of the loop over the target's entries in `diff_recursive` of src/commands/pull.rs.
use omemfs.Prelude.{
  ◌≡◌, refl, sym, ap, ◌∙◌, inl, inr, Bool, false, ◌||◌, List, [], ◌∷◌, All, Option, none, some,
  Bool-cases,
}
use omemfs.Prelude.Bytes.{Bytes, codes, bytes_eq, bytes_eq→eq, bytes_eq_refl}
use omemfs.Prelude.Maps.{get}
use omemfs.Object.Entry.{TreeEntry, blob, tree, symlink, entry_name}
use omemfs.Object.Entry.Sorting.{find_name, DistinctNames}
use omemfs.Object.Names.Paths.{join_path, path_of, IsName}
use omemfs.Trees.Store.{Store}
use omemfs.Trees.Read.{tree_contains_git_dir}
use omemfs.Trees.Walk.{Walk, out_of_fuel, failed, done, ◌>>=◌, >>=-eq-done}
use omemfs.Pull.{Diff, DiffEntry}
use omemfs.Pull.Diff.{Mark, Recurse, diff_blob, diff_symlink, diff_tree, diff_entries}
use omemfs.Pull.Diff.Frame.{Leaves, AllNames, MarkLeaves}
use omemfs.Pull.Diff.Arms.{
  done_injective, diff_blob-Leaves, diff_symlink-Leaves, diff_tree-Leaves, RecurseLeaves,
}
use omemfs.Pull.Diff.Apart.{apart}

bind_done {ℓ κ} :
    {A : Type ℓ} {B : Type κ} (w : Walk A) (f : A → Walk B)
    → ((w >>= λ a. done a) >>= f) ≡ (w >>= f)
bind_done out_of_fuel f = refl
bind_done (failed e) f = refl
bind_done (done a) f = refl

pub find_name-entry_name :
    (name : Bytes) (es : List TreeEntry) (e : TreeEntry)
    → find_name name es ≡ some e
    → entry_name e ≡ name
unfolding find_name
find_name-entry_name name [] e h = cc
find_name-entry_name name (f ∷ es) e h = elim (Bool-cases (bytes_eq (entry_name f) name)) [
  | inl same ↦
      let g : f ≡ e = cc (rw same at h) in
      ap entry_name (sym g) ∙ bytes_eq→eq (entry_name f) name same
  | inr differs ↦ find_name-entry_name name es e (rw differs at h)
]

module _ (sha256 : Bytes → Bytes) (from_json : Bytes → Option (List TreeEntry)) (s : Store) where
  -- The loop over entries, by its rounds.
  module _ (mark : Mark) (recurse : Recurse) (prefix : Bytes) (in_git : Bool)
      (base : List (Bytes × TreeEntry)) (m : MarkLeaves mark) (r : RecurseLeaves recurse) where
    abbrev pub rounds : List TreeEntry → Diff → Walk Diff
    rounds es result = diff_entries sha256 from_json s 0 mark recurse prefix in_git base es result

    rounds_nil : (result : Diff) → rounds [] result ≡ done result
    unfolding diff_entries
    rounds_nil result = refl

    rounds-cons :
        (e : TreeEntry) (es : List TreeEntry) (result : Diff)
        → rounds (e ∷ es) result ≡ (rounds (e ∷ []) result >>= λ next. rounds es next)
    unfolding diff_entries
    rounds-cons (blob n d t z o) es result = sym (
        bind_done (diff_blob mark (join_path prefix n) d z t o (get n base) result)
          (λ next. rounds es next))
    rounds-cons (symlink n l t) es result = sym (
        bind_done (diff_symlink mark (join_path prefix n) l t (get n base) result)
          (λ next. rounds es next))
    rounds-cons (tree n d t z c) es result =
        let child =
          in_git || (bytes_eq n (codes ".git") || tree_contains_git_dir sha256 from_json s d) in
        sym (
          bind_done
            (diff_tree recurse 0 in_git child (join_path prefix n) d z t c (get n base) result)
            (λ next. rounds es next))

    round-Leaves :
        (e : TreeEntry) (result : Diff)
        → Leaves (join_path prefix (entry_name e)) result (rounds (e ∷ []) result)
    unfolding diff_entries entry_name
    round-Leaves (blob n d t z o) result path after outside e =
        let (next, f, g) =
          >>=-eq-done (diff_blob mark (join_path prefix n) d z t o (get n base) result) _ e in
        ap (get path) (done_injective g)
        ∙ diff_blob-Leaves (join_path prefix n) mark d z t o (get n base) result m path next outside
            f
    round-Leaves (symlink n l t) result path after outside e =
        let (next, f, g) =
          >>=-eq-done (diff_symlink mark (join_path prefix n) l t (get n base) result) _ e in
        ap (get path) (done_injective g)
        ∙ diff_symlink-Leaves (join_path prefix n) mark l t (get n base) result m path next outside
            f
    round-Leaves (tree n d t z c) result path after outside e =
        let child =
          in_git || (bytes_eq n (codes ".git") || tree_contains_git_dir sha256 from_json s d) in
        let (next, f, g) =
          >>=-eq-done
            (diff_tree recurse 0 in_git child (join_path prefix n) d z t c (get n base) result) _
            e in
        ap (get path) (done_injective g)
        ∙ diff_tree-Leaves (join_path prefix n) recurse 0 in_git child d z t c (get n base) result r
            path next outside f

    -- A path below one name is changed only by the round of that name.
    module _ (name : Bytes) (names : List Bytes) (valid : All IsName (name ∷ names)) where
      abbrev pub target_path : Bytes
      target_path = path_of prefix (name ∷ names)

      round_other :
          (e : TreeEntry) (result next : Diff)
          → IsName (entry_name e)
          → bytes_eq (entry_name e) name ≡ false
          → rounds (e ∷ []) result ≡ done next
          → get target_path next ≡ get target_path result
      round_other e result next v differs h =
          round-Leaves e result target_path next
            (apart prefix name (entry_name e) names valid v
              (λ k. let same = ap (λ x. bytes_eq x name) k ∙ bytes_eq_refl name in cc))
            h

      rounds_others :
          (es : List TreeEntry) (result after : Diff)
          → AllNames es
          → find_name name es ≡ none
          → rounds es result ≡ done after
          → get target_path after ≡ get target_path result
      unfolding find_name
      rounds_others [] result after v f e =
          ap (get target_path) (done_injective (sym (rounds_nil result) ∙ e))
      rounds_others (e0 ∷ es) result after v f e =
          elim (Bool-cases (bytes_eq (entry_name e0) name)) [
            | inl same ↦ let f' = rw same at f in cc
            | inr differs ↦
                let (next, g, h) =
                  >>=-eq-done (rounds (e0 ∷ []) result) _ (sym (rounds-cons e0 es result) ∙ e) in
                rounds_others es next after v.1 (rw differs at f) h
                ∙ round_other e0 result next v.0 differs g
          ]

      pub rounds_found :
          (es : List TreeEntry) (found : TreeEntry) (value : Option DiffEntry) (result after : Diff)
          → AllNames es
          → DistinctNames es
          → find_name name es ≡ some found
          → ((before next : Diff)
              → get target_path before ≡ none
              → rounds (found ∷ []) before ≡ done next
              → get target_path next ≡ value)
          → get target_path result ≡ none
          → rounds es result ≡ done after
          → get target_path after ≡ value
      unfolding find_name
      rounds_found [] found value result after v d f arm new e = cc
      rounds_found (e0 ∷ es) found value result after v d f arm new e =
          let (next, g, h) =
            >>=-eq-done (rounds (e0 ∷ []) result) _ (sym (rounds-cons e0 es result) ∙ e) in
          elim (Bool-cases (bytes_eq (entry_name e0) name)) [
            | inl same ↦
                let here : e0 ≡ found = cc (rw same at f) in
                let gone : find_name name es ≡ none =
                  ap (λ k. find_name k es) (sym (bytes_eq→eq (entry_name e0) name same)) ∙ d.0 in
                rounds_others es next after v.1 gone h
                ∙ arm result next new (ap (λ x. rounds (x ∷ []) result) (sym here) ∙ g)
            | inr differs ↦
                rounds_found es found value next after v.1 d.1 (rw differs at f) arm
                  (round_other e0 result next v.0 differs g ∙ new) h
          ]
