-- ===== src/Tree/Summary.antt =====
-- The states and counts of a built tree.
use mathlib.Core.Logic.{∥∥₁_elim}
use mathlib.Core.List.{Perm, Permᴰ}
use native.Mathlib.Nat.{ℕ_set}
use markdown_vdb.Base.{
  ℕ, ◌+◌, Bool, true, false, List, [], ◌∷◌, ◌++◌, if◌then◌else◌, Text, text_key, ◌≡◌, refl, ◌∙◌,
  arith, length,
}
use markdown_vdb.Tree.{
  FileState, indexed, modified, new, deleted, FileTree, Entry, Classified, classify,
  empty_classified,
}

-- How many entries have a state of a kind.
unfoldable pub tally : (FileState → Bool) → List Entry → ℕ
tally is [] = 0
tally is ((p, s) ∷ es) = (if is s then 1 else 0) + tally is es

abbrev pub is_indexed : FileState → Bool
is_indexed s = elim s [ indexed ↦ true | _ ↦ false ]

abbrev pub is_modified : FileState → Bool
is_modified s = elim s [ modified ↦ true | _ ↦ false ]

abbrev pub is_new : FileState → Bool
is_new s = elim s [ new ↦ true | _ ↦ false ]

abbrev pub is_deleted : FileState → Bool
is_deleted s = elim s [ deleted ↦ true | _ ↦ false ]

abbrev pub any_state : FileState → Bool
any_state s = true

pub tally-append :
    (is : FileState → Bool) (xs ys : List Entry) → tally is (xs ++ ys) ≡ tally is xs + tally is ys
unfolding tally
tally-append is [] ys = omega arith
tally-append is (x ∷ xs) ys = omega (arith, tally-append is xs ys)

tally-Permᴰ : (is : FileState → Bool) {xs ys : List Entry} → Permᴰ xs ys → tally is xs ≡ tally is ys
unfolding tally
tally-Permᴰ is Permᴰ.nil = refl
tally-Permᴰ is (Permᴰ.cons {b = b} {l₁ = l₁} e d) = rw (e, tally-Permᴰ is d) refl
tally-Permᴰ is (Permᴰ.swap {a' = a'} {b' = b'} e f) = rw (e, f) (omega arith)
tally-Permᴰ is (Permᴰ.trans d e) = tally-Permᴰ is d ∙ tally-Permᴰ is e

pub tally-Perm :
    (is : FileState → Bool) {xs ys : List Entry} → Perm xs ys → tally is xs ≡ tally is ys
tally-Perm is {xs} {ys} p = ∥∥₁_elim p (ℕ_set (tally is xs) (tally is ys)) (λ d. tally-Permᴰ is d)

pub tally_all : (es : List Entry) → tally any_state es ≡ length es
unfolding tally
tally_all [] = refl
tally_all (e ∷ es) = omega (arith, tally_all es)

-- The counts of a tree are those of these files.
pub record Counts (t : FileTree) (files : List Entry) : Type 0 where
  pub total : t.total_files ≡ length files
  pub of_indexed : t.indexed_count ≡ tally is_indexed files
  pub of_modified : t.modified_count ≡ tally is_modified files
  pub of_new : t.new_count ≡ tally is_new files
  pub of_deleted : t.deleted_count ≡ tally is_deleted files

-- The counters count the entries.
pub record Counted (c : Classified) : Type 0 where
  pub of_indexed : c.indexed_count ≡ tally is_indexed c.entries
  pub of_modified : c.modified_count ≡ tally is_modified c.entries
  pub of_new : c.new_count ≡ tally is_new c.entries
  pub of_deleted : c.deleted_count ≡ tally is_deleted c.entries

pub classify-entries :
    (p : Text) (s : FileState) (c : Classified)
    → (classify p s c).entries ≡ c.entries ++ (p, s) ∷ []
unfolding classify
classify-entries p indexed c = refl
classify-entries p modified c = refl
classify-entries p new c = refl
classify-entries p deleted c = refl

tally-snoc :
    (is : FileState → Bool) (es : List Entry) (p : Text) (s : FileState)
    → tally is (es ++ (p, s) ∷ []) ≡ tally is es + (if is s then 1 else 0)
unfolding tally
tally-snoc is es p s = omega (arith, tally-append is es ((p, s) ∷ []))

pub classify-Counted :
    (p : Text) (s : FileState) (c : Classified) → Counted c → Counted (classify p s c)
unfolding classify
classify-Counted p indexed c i =
    let es = c.entries in
    ground (
      arith,
      tally-snoc is_indexed es p indexed,
      tally-snoc is_modified es p indexed,
      tally-snoc is_new es p indexed,
      tally-snoc is_deleted es p indexed,
    )
classify-Counted p modified c i =
    let es = c.entries in
    ground (
      arith,
      tally-snoc is_indexed es p modified,
      tally-snoc is_modified es p modified,
      tally-snoc is_new es p modified,
      tally-snoc is_deleted es p modified,
    )
classify-Counted p new c i =
    let es = c.entries in
    ground (
      arith,
      tally-snoc is_indexed es p new,
      tally-snoc is_modified es p new,
      tally-snoc is_new es p new,
      tally-snoc is_deleted es p new,
    )
classify-Counted p deleted c i =
    let es = c.entries in
    ground (
      arith,
      tally-snoc is_indexed es p deleted,
      tally-snoc is_modified es p deleted,
      tally-snoc is_new es p deleted,
      tally-snoc is_deleted es p deleted,
    )

pub empty-Counted : Counted empty_classified
unfolding tally
empty-Counted = record { of_indexed = refl; of_modified = refl; of_new = refl; of_deleted = refl }
