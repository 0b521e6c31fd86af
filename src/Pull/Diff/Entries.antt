-- ===== src/Pull/Diff/Entries.antt =====
-- What `diff_trees` of src/commands/pull.rs reports at the path of a target's entry that is not a
-- tree comes from the round of that entry.
use omemfs.Prelude.{
  ℕ, zero, suc, ◌≡◌, refl, sym, ap, ◌∙◌, inl, inr, Bool, true, false, ◌||◌, List, [], ◌∷◌, All,
  Option, none, some, any, Bool-cases,
}
use mathlib.Core.Path.{subst}
use omemfs.Prelude.Bytes.{Bytes, codes, bytes_eq}
use omemfs.Prelude.Errors.{ok}
use omemfs.Prelude.Maps.{get}
use omemfs.Object.Digest.{Digest}
use omemfs.Object.Entry.{TreeEntry, tree, entry_name}
use omemfs.Object.Entry.Sorting.{find_name}
use omemfs.Object.Names.Paths.{join_path, path_of, IsName}
use omemfs.Trees.Store.{Store}
use omemfs.Trees.Read.{read_tree, tree_contains_git_dir}
use omemfs.Trees.Change.Stored.{digest_eq_iff}
use omemfs.Trees.Walk.{done, lift, >>=-eq-done}
use omemfs.Pull.{Diff, DiffEntry}
use omemfs.Pull.Diff.{
  Mark, Recurse, mark_deleted_tree, diff_tree, base_tree, diff_entries, load_base_entries,
  same_tree, diff_recursive, diff_trees,
}
use omemfs.Pull.Diff.Frame.{read_tree-AllNames, mark_deleted_tree-Leaves}
use omemfs.Pull.Diff.Outside.{load_base_entries-AllKeys, diff_recursive-Leaves}
use omemfs.Pull.Diff.Arms.{done_injective, lift_ok}
use omemfs.Pull.Diff.Reported.{Leads, Has, Has-Leads, ok_injective}
use omemfs.Pull.Diff.Apart.{apart, delete_missing-at, find_name-named, not_itself}
use omemfs.Pull.Diff.Below.{diff_tree-walks, load_base_entries-old, load_base_entries-Has}
use omemfs.Pull.Diff.Rounds.{rounds_found, find_name-entry_name}

module _ (sha256 : Bytes → Bytes) (from_json : Bytes → Option (List TreeEntry)) (s : Store) where
  -- The round of an entry that is not a tree, where the base has an entry of its name or none.
  abbrev pub RoundReports : TreeEntry → Option TreeEntry → Option DiffEntry → Type 0
  RoundReports leaf old value =
      (mark : Mark) (recurse : Recurse) (prefix : Bytes) (in_git : Bool)
      (base : List (Bytes × TreeEntry)) (name : Bytes) (before next : Diff)
      → entry_name leaf ≡ name
      → get name base ≡ old
      → get (join_path prefix name) before ≡ none
      → diff_entries sha256 from_json s 0 mark recurse prefix in_git base (leaf ∷ []) before
        ≡ done next
      → get (join_path prefix name) next ≡ value

  -- A walk that reports such an entry below its target.
  module _ (leaf : TreeEntry) (old : Option TreeEntry) (value : Option DiffEntry)
      (single : RoundReports leaf old value) (kept : old ≡ some leaf → none ≡ value) where
    abbrev Reports : Recurse → Type 0
    Reports recurse =
        (base : Option Digest) (target : Digest) (prefix : Bytes) (in_git : Bool)
        (result after : Diff) (name : Bytes) (names : List Bytes)
        → All IsName (name ∷ names)
        → Leads sha256 from_json s target name names leaf
        → Has sha256 from_json s base name names old
        → get (path_of prefix (name ∷ names)) result ≡ none
        → recurse base target prefix in_git result ≡ done after
        → get (path_of prefix (name ∷ names)) after ≡ value

    module _ (mark : Mark) (recurse : Recurse) (prefix : Bytes) (in_git : Bool)
        (base : List (Bytes × TreeEntry)) where
      tree_round :
          (name next_name : Bytes) (names : List Bytes) (tree_name : Bytes) (d : Digest)
          (t : Option ℕ) (size count : ℕ) (before next : Diff)
          → Reports recurse
          → All IsName (name ∷ (next_name ∷ names))
          → tree_name ≡ name
          → Leads sha256 from_json s d next_name names leaf
          → Has sha256 from_json s (base_tree (get name base)) next_name names old
          → get (path_of prefix (name ∷ (next_name ∷ names))) before ≡ none
          → diff_entries sha256 from_json s 0 mark recurse prefix in_git base
              (tree tree_name d t size count ∷ [])
              before
            ≡ done next
          → get (path_of prefix (name ∷ (next_name ∷ names))) next ≡ value
      unfolding diff_entries path_of
      tree_round name next_name names tree_name d t size count before next r v same leads has new
            e =
          let child =
            in_git
            || (bytes_eq tree_name (codes ".git") || tree_contains_git_dir sha256 from_json s d) in
          let path = path_of prefix (name ∷ (next_name ∷ names)) in
          let at = join_path prefix name in
          let (mid, f, g) =
            >>=-eq-done
              (diff_tree recurse 0 in_git child (join_path prefix tree_name) d size t count
                (get tree_name base) before)
              _ e in
          let (entered, inner, unchanged, below, left) =
            diff_tree-walks at path (not_itself prefix name next_name names v) recurse in_git child
              d size t count (get name base) before mid
              (ap
                  (λ k.
                    diff_tree recurse 0 in_git child (join_path prefix k) d size t count
                      (get k base) before)
                  (sym same)
                ∙ f) in
          ap (get path) (done_injective g)
          ∙ left
          ∙ r (base_tree (get name base)) d at child entered inner next_name names v.1 leads has
              (unchanged ∙ new) below

    round :
        (fuel : ℕ)
        → Reports (diff_recursive sha256 from_json s 0 fuel)
        → (base : Option Digest) (prefix : Bytes) (in_git : Bool)
          (entries : List (Bytes × TreeEntry)) (target : Digest) (es : List TreeEntry)
          (result changed : Diff) (name : Bytes) (names : List Bytes)
        → read_tree sha256 from_json s target ≡ ok es
        → load_base_entries sha256 from_json s base ≡ done entries
        → All IsName (name ∷ names)
        → Leads sha256 from_json s target name names leaf
        → Has sha256 from_json s base name names old
        → get (path_of prefix (name ∷ names)) result ≡ none
        → diff_entries sha256 from_json s 0
            (mark_deleted_tree sha256 from_json fuel s)
            (diff_recursive sha256 from_json s 0 fuel)
            prefix
            in_git
            entries
            es
            result
          ≡ done changed
        → (get (path_of prefix (name ∷ names)) changed ≡ value)
          × (any (λ f. bytes_eq (entry_name f) name) es ≡ true)
    unfolding Leads path_of entry_name
    round fuel r base prefix in_git entries target es result changed name [] reads loads v
          (fs, q, d, f) has new e =
        let mark = mark_deleted_tree sha256 from_json fuel s in
        let recurse = diff_recursive sha256 from_json s 0 fuel in
        let found : find_name name es ≡ some leaf =
          ap (find_name name) (ok_injective sha256 from_json s (sym reads ∙ q)) ∙ f in
        (
          rounds_found sha256 from_json s mark recurse prefix in_git entries
              (mark_deleted_tree-Leaves sha256 from_json s fuel)
              (diff_recursive-Leaves sha256 from_json s 0 fuel) name [] v es leaf (value) result
              changed (read_tree-AllNames sha256 from_json s target es reads)
              (rw (ok_injective sha256 from_json s (sym reads ∙ q)) d) found
              (λ before next unset k.
                single mark recurse prefix in_git entries name before next
                  (find_name-entry_name name es leaf found)
                  (load_base_entries-old sha256 from_json s base entries name old has loads) unset
                  k)
              new e,
          find_name-named name es leaf found,
        )
    round fuel r base prefix in_git entries target es result changed name (next_name ∷ names) reads
          loads v (fs, q, d, tree_name, hash, t, size, count, f, leads) has new e =
        let mark = mark_deleted_tree sha256 from_json fuel s in
        let recurse = diff_recursive sha256 from_json s 0 fuel in
        let found : find_name name es ≡ some (tree tree_name hash t size count) =
          ap (find_name name) (ok_injective sha256 from_json s (sym reads ∙ q)) ∙ f in
        (
          rounds_found sha256 from_json s mark recurse prefix in_git entries
              (mark_deleted_tree-Leaves sha256 from_json s fuel)
              (diff_recursive-Leaves sha256 from_json s 0 fuel) name (next_name ∷ names) v es
              (tree tree_name hash t size count) (value) result changed
              (read_tree-AllNames sha256 from_json s target es reads)
              (rw (ok_injective sha256 from_json s (sym reads ∙ q)) d) found
              (λ before next unset k.
                tree_round mark recurse prefix in_git entries name next_name names tree_name hash t
                  size count before next r v
                  (find_name-entry_name name es (tree tree_name hash t size count) found) leads
                  (load_base_entries-Has sha256 from_json s base entries name next_name names old
                    has loads)
                  unset k)
              new e,
          find_name-named name es (tree tree_name hash t size count) found,
        )

    unchanged :
        (base : Option Digest) (target : Digest) (name : Bytes) (names : List Bytes)
        → same_tree sha256 from_json s 0 base target ≡ true
        → Leads sha256 from_json s target name names leaf
        → Has sha256 from_json s base name names old
        → none ≡ value
    unfolding same_tree
    unchanged none target name names same leads has = cc
    unchanged (some b) target name names same leads has =
        let eq = (digest_eq_iff b target).0 same in
        let here : old ≡ some leaf =
          Has-Leads sha256 from_json s target name names leaf old leads
            (subst (λ x. Has sha256 from_json s (some x) name names old) eq has) in
        kept here

    diff_recursive-value : (fuel : ℕ) → Reports (diff_recursive sha256 from_json s 0 fuel)
    unfolding diff_recursive same_tree
    diff_recursive-value zero base target prefix in_git result after name names v leads has new e =
        cc
    diff_recursive-value (suc fuel) base target prefix in_git result after name names v leads has
          new e =
        elim (Bool-cases (same_tree sha256 from_json s 0 base target)) [
          | inl same ↦
              ap (get (path_of prefix (name ∷ names))) (done_injective (rw same at e))
              ∙ new
              ∙ unchanged base target name names same leads has
          | inr differs ↦
              let mark = mark_deleted_tree sha256 from_json fuel s in
              let path = path_of prefix (name ∷ names) in
              let (es, f, g) =
                >>=-eq-done (lift (read_tree sha256 from_json s target)) _ (rw differs at e) in
              let (entries, loads, i) =
                >>=-eq-done (load_base_entries sha256 from_json s base) _ g in
              let (changed, j, k) = >>=-eq-done _ _ i in
              let (reported, named) =
                round fuel (diff_recursive-value fuel) base prefix in_git entries target es result
                  changed name names (lift_ok f) loads v leads has new j in
              delete_missing-at mark prefix name path es entries changed after
                (mark_deleted_tree-Leaves sha256 from_json s fuel) named
                (load_base_entries-AllKeys sha256 from_json s 0 base entries loads)
                (λ other w far. apart prefix name other names v w far) k
              ∙ reported
        ]

    pub diff_trees-value :
        (fuel : ℕ) (base : Option Digest) (target : Digest) (name : Bytes) (names : List Bytes)
        (after : Diff)
        → All IsName (name ∷ names)
        → Leads sha256 from_json s target name names leaf
        → Has sha256 from_json s base name names old
        → diff_trees sha256 from_json s 0 fuel base (some target) ≡ done after
        → get (path_of [] (name ∷ names)) after ≡ value
    unfolding diff_trees get
    diff_trees-value fuel base target name names after v leads has e =
        diff_recursive-value fuel base target [] false [] after name names v leads has refl e
