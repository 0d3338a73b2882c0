-- ===== src/Base/Equality.antt =====
-- The keys of maps and sets: a type with a test for sameness, and the types the program uses.
use Prim.Native.Nat.{ℕ}
use mathlib.Core.Path.{◌≡◌, refl}
use mathlib.Core.Logic.{◌↔◌}
use mathlib.Core.Bool.{Bool, true, false, ◌&&◌}
use mathlib.Core.Option.{Option, none, some}
use mathlib.Core.List.{List, [], ◌∷◌}
use native.Mathlib.Omega.{arith}
use markdown_vdb.Base.Tests.{◌==◌}

pub record Key {ℓ} (A : Type ℓ) : Type ℓ where
  pub same : A → A → Bool
  pub same_iff : (k l : A) → (same k l ≡ true) ↔ (k ≡ l)

infix 50 ◌≟◌
abbrev pub ◌≟◌ {ℓ} : {A : Type ℓ} ⦃key : Key A⦄ → A → A → Bool
◌≟◌ ⦃key⦄ = key.same

-- A piece of text is the list of its characters' code points.
abbrev pub Text : Type 0
Text = List ℕ

unfoldable pub text_eq : Text → Text → Bool
text_eq [] [] = true
text_eq (x ∷ xs) (y ∷ ys) = x == y && text_eq xs ys
text_eq _ _ = false

pub text_eq_iff : (a b : Text) → (text_eq a b ≡ true) ↔ (a ≡ b)
unfolding text_eq
text_eq_iff (x ∷ xs) (y ∷ ys) = ground (arith, text_eq_iff xs ys)
text_eq_iff _ _ = ground arith

instance abbrev pub text_key : Key Text
text_key = record { same = text_eq; same_iff = text_eq_iff }

-- The keys of the links of one file: a target, and the frontmatter field that names it.
abbrev field_eq : Option Text → Option Text → Bool
field_eq none none = true
field_eq (some a) (some b) = text_eq a b
field_eq _ _ = false

field_eq_iff : (a b : Option Text) → (field_eq a b ≡ true) ↔ (a ≡ b)
field_eq_iff (some a) (some b) = ground (arith, text_eq_iff a b)
field_eq_iff _ _ = ground arith

abbrev pub LinkKey : Type 0
LinkKey = Text × Option Text

abbrev link_key_eq : LinkKey → LinkKey → Bool
link_key_eq (a, f) (b, g) = text_eq a b && field_eq f g

pub link_key_eq_iff : (a b : LinkKey) → (link_key_eq a b ≡ true) ↔ (a ≡ b)
link_key_eq_iff (a, f) (b, g) = ground (arith, text_eq_iff a b, field_eq_iff f g)

instance abbrev pub link_key : Key LinkKey
link_key = record { same = link_key_eq; same_iff = link_key_eq_iff }

pub ≟_refl {ℓ} : {A : Type ℓ} ⦃e : Key A⦄ (a : A) → a ≟ a ≡ true
≟_refl ⦃e⦄ a = (e.same_iff a a).1 refl

pub ≟_sym {ℓ} : {A : Type ℓ} ⦃e : Key A⦄ (a b : A) → a ≟ b ≡ false → b ≟ a ≡ false
≟_sym ⦃e⦄ a b h = ground (arith, e.same_iff a b, e.same_iff b a)
