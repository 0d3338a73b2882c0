-- ===== src/Base/Strings/Blank.antt =====
-- `trim` leaves nothing exactly of white space.
use mathlib.Core.Path.{◌≡◌, refl, ap, sym, ◌∙◌}
use mathlib.Core.Logic.{◌≢◌, ◌⊎◌, inl, inr}
use mathlib.Core.Bool.{Bool, true, false, ◌&&◌}
use mathlib.Core.List.{List, [], ◌∷◌, ◌++◌, reverse, reverse-cons, reverse-reverse}
use native.Mathlib.Omega.{arith}
use Prim.Native.Nat.{ℕ}
use markdown_vdb.Base.Tests.{if◌then◌else◌, Bool-cases}
use markdown_vdb.Base.Seq.{All, is_empty}
use markdown_vdb.Base.Equality.{Text}
use markdown_vdb.Base.Strings.{drop_while, trim, is_whitespace, join}

-- Every character is white space.
abbrev pub is_blank : Text → Bool
is_blank [] = true
is_blank (c ∷ cs) = if is_whitespace c then is_blank cs else false

drop_while_cases :
    (s : Text)
    → ((is_blank s ≡ true) × (drop_while is_whitespace s ≡ []))
      ⊎ ((c : ℕ) × (cs : Text) × (is_whitespace c ≡ false) × (drop_while is_whitespace s ≡ c ∷ cs))
unfolding drop_while
drop_while_cases [] = inl (refl, refl)
drop_while_cases (c ∷ cs) = elim (Bool-cases (is_whitespace c)) [
  | inl e ↦ elim (drop_while_cases cs) [
    | inl (b, n) ↦ inl (rw e b, rw e n)
    | inr (d, ds, w, n) ↦ inr (d, ds, w, rw e n)
  ]
  | inr e ↦ inr (c, cs, e, rw e)
]

concat-ne : (a : Text) (c : ℕ) → a ++ c ∷ [] ≢ []
concat-ne [] c e = cc
concat-ne (x ∷ a) c e = cc

drop_while-concat :
    (c : ℕ) (a : Text) → is_whitespace c ≡ false → drop_while is_whitespace (a ++ c ∷ []) ≢ []
unfolding drop_while
drop_while-concat c [] h = rw h (λ e. cc)
drop_while-concat c (x ∷ a) h = elim (Bool-cases (is_whitespace x)) [
  | inl e ↦ rw e (drop_while-concat c a h)
  | inr e ↦ rw e (λ n. cc)
]

reverse-ne : (a : Text) → a ≢ [] → reverse a ≢ []
reverse-ne a h e = h (sym (reverse-reverse a) ∙ ap reverse e)

is_empty_ne : (s : Text) → s ≢ [] → is_empty s ≡ false
is_empty_ne [] h = absurd (h refl)
is_empty_ne (c ∷ cs) h = refl

-- What trims to nothing is blank.
pub trim-is_blank : (s : Text) → is_empty (trim s) ≡ true → is_blank s ≡ true
unfolding trim
trim-is_blank s h = elim (drop_while_cases s) [
  | inl (b, _) ↦ b
  | inr (c, cs, w, e) ↦ absurd (clash c cs w e h)
]
  where
    clash :
        (c : ℕ) (cs : Text)
        → is_whitespace c ≡ false
        → drop_while is_whitespace s ≡ c ∷ cs
        → is_empty (trim s) ≡ true
        → ⊥
    clash c cs w e q =
        let full : is_empty (trim s) ≡ false = rw e (
          is_empty_ne _ (
            reverse-ne (drop_while is_whitespace (reverse (c ∷ cs)))
              (rw (reverse-cons c cs) (drop_while-concat c (reverse cs) w)))) in
        cc

is_blank-append : (a b : Text) → is_blank (a ++ b) ≡ (is_blank a && is_blank b)
is_blank-append [] b = refl
is_blank-append (c ∷ a) b = ground (arith, is_blank-append a b)

-- A blank join has blank lines only.
pub is_blank-join :
    (sep : Text) (ls : List Text) → is_blank (join sep ls) ≡ true → All (λ l. is_blank l ≡ true) ls
unfolding join
is_blank-join sep [] h = tt
is_blank-join sep (l ∷ []) h = (h, tt)
is_blank-join sep (l ∷ m ∷ ls) h =
    let rest = sep ++ join sep (m ∷ ls) in
    let whole = is_blank-append l rest in
    let later = is_blank-append sep (join sep (m ∷ ls)) in
    (ground arith, is_blank-join sep (m ∷ ls) (ground arith))
