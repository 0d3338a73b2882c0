-- ===== src/Base/Strings/Pieces.antt =====
-- `split` and `join` by one character are inverse, and `split` follows `++` at a separator.
use Prim.Native.Nat.{ℕ}
use mathlib.Core.Path.{◌≡◌, refl, ap, sym, ◌∙◌}
use mathlib.Core.Logic.{◌≢◌, inl, inr}
use mathlib.Core.Bool.{false}
use markdown_vdb.Base.Tests.{◌==◌, Bool-cases}
use mathlib.Core.List.{List, [], ◌∷◌, ◌++◌, append_assoc}
use native.Mathlib.Omega.{arith}
use markdown_vdb.Base.Seq.{All}
use markdown_vdb.Base.Equality.{Text}
use markdown_vdb.Base.Strings.{split, split_step, join, contains_char}

module _ (c : ℕ) where
  pub split-ne-nil : (s : Text) → split c s ≢ []
  unfolding split
  split-ne-nil [] = ground arith
  split-ne-nil (d ∷ ds) = ground (arith, split-ne-nil ds)

  split_step-append :
      (d : ℕ) (ps qs : List Text) → ps ≢ [] → split_step c d (ps ++ qs) ≡ split_step c d ps ++ qs
  unfolding split_step
  split_step-append d [] qs h = absurd (h refl)
  split_step-append d (p ∷ ps) qs h = ground arith

  split_step_self : (ps : List Text) → ps ≢ [] → split_step c c ps ≡ [] ∷ ps
  unfolding split_step
  split_step_self [] h = absurd (h refl)
  split_step_self (p ∷ ps) h = ground arith

  pub split-append : (a b : Text) → split c (a ++ c ∷ b) ≡ split c a ++ split c b
  unfolding split
  split-append [] b = split_step_self (split c b) (split-ne-nil b)
  split-append (d ∷ a) b =
      ap (split_step c d) (split-append a b)
      ∙ split_step-append d (split c a) (split c b) (split-ne-nil a)

  join_cons :
      (p : Text) (ps : List Text) → ps ≢ [] → join (c ∷ []) (p ∷ ps) ≡ p ++ c ∷ join (c ∷ []) ps
  unfolding join
  join_cons p [] h = absurd (h refl)
  join_cons p (q ∷ ps) h = refl

  join-split_step :
      (d : ℕ) (ps : List Text) → ps ≢ [] → join (c ∷ []) (split_step c d ps) ≡ d ∷ join (c ∷ []) ps
  unfolding split_step join
  join-split_step d [] h = absurd (h refl)
  join-split_step d (p ∷ []) h = ground arith
  join-split_step d (p ∷ q ∷ ps) h = ground arith

  pub join-split : (s : Text) → join (c ∷ []) (split c s) ≡ s
  unfolding split
  join-split [] = unfold join in refl
  join-split (d ∷ ds) =
      join-split_step d (split c ds) (split-ne-nil ds) ∙ ap (◌∷◌ d) (join-split ds)

  pub join-append :
      (ps qs : List Text)
      → ps ≢ []
      → qs ≢ []
      → join (c ∷ []) (ps ++ qs) ≡ join (c ∷ []) ps ++ c ∷ join (c ∷ []) qs
  join-append [] qs h k = absurd (h refl)
  join-append (p ∷ []) qs h k = join_cons p qs k ∙ unfold join in refl
  join-append (p ∷ q ∷ ps) qs h k =
      join_cons p (q ∷ ps ++ qs) (λ e. cc)
      ∙ ap (λ t. p ++ c ∷ t) (join-append (q ∷ ps) qs (λ e. cc) k)
      ∙ sym (
          ap (λ t. t ++ c ∷ join (c ∷ []) qs) (join_cons p (q ∷ ps) (λ e. cc))
          ∙ append_assoc p (c ∷ join (c ∷ []) (q ∷ ps)) (c ∷ join (c ∷ []) qs))

  -- A text without the separator is one piece.
  pub split_none : (s : Text) → contains_char c s ≡ false → split c s ≡ s ∷ []
  unfolding split contains_char
  split_none [] h = refl
  split_none (d ∷ ds) h = ground (arith, split_none ds)

  -- Pieces without the separator come back from their join.
  pub split-join :
      (ps : List Text)
      → ps ≢ []
      → All (λ p. contains_char c p ≡ false) ps
      → split c (join (c ∷ []) ps) ≡ ps
  split-join [] ne h = absurd (ne refl)
  split-join (p ∷ []) ne h = unfold join in split_none p h.0
  split-join (p ∷ q ∷ ps) ne h =
      ap (split c) (join_cons p (q ∷ ps) (λ e. cc))
      ∙ split-append p (join (c ∷ []) (q ∷ ps))
      ∙ rw (split_none p h.0) (ap (◌∷◌ p) (split-join (q ∷ ps) (λ e. cc) h.1))

-- Pieces that have not a character.
abbrev pub Lacks : ℕ → List Text → Type 0
Lacks d ps = All (λ p. contains_char d p ≡ false) ps

Lacks-split_step : (c d : ℕ) (ps : List Text) → Lacks c ps → Lacks c (split_step c d ps)
unfolding split_step contains_char
Lacks-split_step c d [] h = tt
Lacks-split_step c d (p ∷ ps) h = elim (Bool-cases (d == c)) [
  | inl sep ↦ rw sep (refl, h)
  | inr other ↦ rw other (ground (arith, h.0), h.1)
]

-- The pieces of a split have no separator.
pub split-Lacks : (c : ℕ) (s : Text) → Lacks c (split c s)
unfolding split contains_char
split-Lacks c [] = (refl, tt)
split-Lacks c (d ∷ ds) = Lacks-split_step c d (split c ds) (split-Lacks c ds)

Lacks-split_step_absent :
    (c d e : ℕ) (ps : List Text) → (e == d) ≡ false → Lacks d ps → Lacks d (split_step c e ps)
unfolding split_step contains_char
Lacks-split_step_absent c d e [] n h = tt
Lacks-split_step_absent c d e (p ∷ ps) n h = elim (Bool-cases (e == c)) [
  | inl sep ↦ rw sep (refl, h)
  | inr other ↦ rw other (ground (arith, h.0), h.1)
]

-- The pieces of a split have no character that the text does not have.
pub split-Lacks_absent : (c d : ℕ) (s : Text) → contains_char d s ≡ false → Lacks d (split c s)
unfolding split contains_char
split-Lacks_absent c d [] h = (refl, tt)
split-Lacks_absent c d (e ∷ es) h =
    Lacks-split_step_absent c d e (split c es) (ground arith)
      (split-Lacks_absent c d es (ground arith))
