-- ===== src/PathUtil/Form.antt =====
-- The paths that `path_is_in_scope` of src/path_util.rs compares as they are.
use mathlib.Core.List.{reverse, reverse-reverse, reverse-cons}
use markdown_vdb.Base.{
  ℕ, false, List, [], ◌∷◌, ◌++◌, ◌≡◌, ◌≢◌, refl, sym, ap, ◌∙◌, inl, inr, arith, Text, ◌==◌, ◌∈◌,
  mem-append_right, Bool-cases, Option-cases,
}
use markdown_vdb.Base.Strings.{
  codes, strip_prefix, strip_prefix_iff, contains_char, trim_end_matches, drop_while, split,
}
use markdown_vdb.Base.Strings.Pieces.{split-append}
use markdown_vdb.PathUtil.{slash_normalized, trim_relative_root, scope_form}

same_head : (a b : Text) (as' bs : List Text) → a ∷ as' ≡ b ∷ bs → a ≡ b
same_head a b as' bs e = cc e

-- The first segment of a path is not `.`.
no_root_lem :
    (r s : Text) (ss : List Text) → split b'/' r ≡ s ∷ ss → s ≢ codes "." → trim_relative_root r ≡ r
unfolding trim_relative_root split
no_root_lem r s ss e other = elim (Option-cases (strip_prefix (codes "./") r)) [
  | inl absent ↦ rw (absent, trim_relative_root) refl
  | inr (t, found) ↦
      let split_r : split b'/' r ≡ codes "." ∷ split b'/' t =
        ap (split b'/') ((strip_prefix_iff (codes "./") r t).0 found)
        ∙ split-append b'/' (codes ".") t
        ∙ ap (λ p. p ++ split b'/' t) dot in
      absurd (other (same_head s (codes ".") ss (split b'/' t) (sym e ∙ split_r)))
]
  where
    dot : split b'/' (codes ".") ≡ codes "." ∷ []
    dot = refl

-- No segment is empty, so the path has no slash at its end.
no_slash_lem : (r : Text) → ([] ∈ split b'/' r → ⊥) → trim_end_matches b'/' r ≡ r
unfolding trim_end_matches drop_while split
no_slash_lem r full = go (reverse r) refl
  where
    go : (q : Text) → reverse r ≡ q → reverse (drop_while (λ d. d == b'/') (reverse r)) ≡ r
    go [] e = rw e (ap reverse (sym e) ∙ reverse-reverse r)
    go (c ∷ q) e = elim (Bool-cases (c == b'/')) [
      | inr other ↦ rw (e, other) (ap reverse (sym e) ∙ reverse-reverse r)
      | inl slash ↦ absurd (full (last c q e (ground arith)))
    ]
      where
        last : (c : ℕ) (q : Text) → reverse r ≡ c ∷ q → c ≡ b'/' → [] ∈ split b'/' r
        last c q e same =
            let ends : r ≡ reverse q ++ b'/' ∷ [] =
              sym (reverse-reverse r)
              ∙ (ap reverse e ∙ (reverse-cons c q ∙ ap (λ d. reverse q ++ d ∷ []) same)) in
            rw ends (
              rw (split-append b'/' (reverse q) [])
                (mem-append_right [] (split b'/' (reverse q)) (split b'/' []) (inl refl)))

pub scope_form_same :
    (r s : Text) (ss : List Text)
    → split b'/' r ≡ s ∷ ss
    → s ≢ codes "."
    → contains_char b'\\' r ≡ false
    → ([] ∈ split b'/' r → ⊥)
    → scope_form r ≡ r
unfolding scope_form slash_normalized
scope_form_same r s ss e other plain full =
    rw (plain, slash_normalized, no_root_lem r s ss e other) (no_slash_lem r full)
