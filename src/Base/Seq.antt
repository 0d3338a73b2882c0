-- ===== src/Base/Seq.antt =====
-- `Vec`s and slices as lists with native lengths.
use Prim.Native.Nat.{ℕ, zero, suc, ◌+◌, ◌-◌, ◌≤◌, min}
use mathlib.Core.Path.{◌≡◌, refl, ap, sym, ◌∙◌}
use mathlib.Core.Logic.{◌⊎◌, inl, inr}
use mathlib.Core.Bool.{Bool, true, false}
use mathlib.Core.List.{List, [], ◌∷◌, ◌++◌, append_assoc}
use native.Mathlib.Omega.{arith}
use markdown_vdb.Base.Tests.{if◌then◌else◌}

-- Every element satisfies a predicate.
abbrev pub All {ℓ κ} : {A : Type ℓ} → (A → Type κ) → List A → Type κ
All P [] = Unit
All P (x ∷ xs) = P x × All P xs

infix 40 ◌∈◌
abbrev pub ◌∈◌ : {A : Type 0} → A → List A → Type 0
a ∈ [] = ⊥
a ∈ x ∷ xs = (a ≡ x) ⊎ (a ∈ xs)

module _ {ℓ} {A : Type ℓ} where
  abbrev pub length : List A → ℕ
  length [] = 0
  length (x ∷ xs) = suc (length xs)

  abbrev pub take : ℕ → List A → List A
  take zero xs = []
  take (suc n) [] = []
  take (suc n) (x ∷ xs) = x ∷ take n xs

  abbrev pub drop : ℕ → List A → List A
  drop zero xs = xs
  drop (suc n) [] = []
  drop (suc n) (x ∷ xs) = drop n xs

  abbrev pub concat : List (List A) → List A
  concat [] = []
  concat (xs ∷ xss) = xs ++ concat xss

  abbrev pub filter : (A → Bool) → List A → List A
  filter p [] = []
  filter p (x ∷ xs) = if p x then x ∷ filter p xs else filter p xs

  abbrev pub any : (A → Bool) → List A → Bool
  any p [] = false
  any p (x ∷ xs) = if p x then true else any p xs

  abbrev pub is_empty : List A → Bool
  is_empty [] = true
  is_empty (x ∷ xs) = false

  pub length-append : (xs ys : List A) → length (xs ++ ys) ≡ length xs + length ys
  length-append [] ys = omega arith
  length-append (x ∷ xs) ys = omega (arith, length-append xs ys)

  pub length-take : (n : ℕ) (xs : List A) → length (take n xs) ≡ min n (length xs)
  length-take zero xs = omega arith
  length-take (suc n) [] = omega arith
  length-take (suc n) (x ∷ xs) = omega (arith, length-take n xs)

  pub length-drop : (n : ℕ) (xs : List A) → length (drop n xs) ≡ length xs - n
  length-drop zero xs = omega arith
  length-drop (suc n) [] = omega arith
  length-drop (suc n) (x ∷ xs) = omega (arith, length-drop n xs)

  pub take-append-drop : (n : ℕ) (xs : List A) → take n xs ++ drop n xs ≡ xs
  take-append-drop zero xs = refl
  take-append-drop (suc n) [] = refl
  take-append-drop (suc n) (x ∷ xs) = ap (◌∷◌ x) (take-append-drop n xs)

  pub drop-nil : (n : ℕ) → drop n [] ≡ []
  drop-nil zero = refl
  drop-nil (suc n) = refl

  pub drop-drop : (m n : ℕ) (xs : List A) → drop n (drop m xs) ≡ drop (m + n) xs
  drop-drop zero n xs = ground arith
  drop-drop (suc m) n [] = ground (arith, drop-nil n, drop-nil (suc m + n))
  drop-drop (suc m) n (x ∷ xs) =
      let e : suc m + n ≡ suc (m + n) = omega arith in rw e (drop-drop m n xs)

  pub filter-append :
      (p : A → Bool) (xs ys : List A) → filter p (xs ++ ys) ≡ filter p xs ++ filter p ys
  filter-append p [] ys = refl
  filter-append p (x ∷ xs) ys = ground (arith, filter-append p xs ys)

  pub concat-append : (xss yss : List (List A)) → concat (xss ++ yss) ≡ concat xss ++ concat yss
  concat-append [] yss = refl
  concat-append (xs ∷ xss) yss =
      ap (λ t. xs ++ t) (concat-append xss yss) ∙ sym (append_assoc xs (concat xss) (concat yss))

pub All-append {ℓ κ} :
    {A : Type ℓ} (P : A → Type κ) (xs ys : List A) → All P xs → All P ys → All P (xs ++ ys)
All-append P [] ys h k = k
All-append P (x ∷ xs) ys h k = (h.0, All-append P xs ys h.1 k)

pub All-map {ℓ κ ι} :
    {A : Type ℓ} {P : A → Type κ} {Q : A → Type ι} (f : (a : A) → P a → Q a) (xs : List A)
    → All P xs
    → All Q xs
All-map f [] h = tt
All-map f (x ∷ xs) h = (f x h.0, All-map f xs h.1)

module _ {A : Type 0} (a : A) where
  pub mem-append_left : (xs ys : List A) → a ∈ xs → a ∈ xs ++ ys
  mem-append_left [] ys m = absurd m
  mem-append_left (x ∷ xs) ys (inl e) = inl e
  mem-append_left (x ∷ xs) ys (inr m) = inr (mem-append_left xs ys m)

  pub mem-append_right : (xs ys : List A) → a ∈ ys → a ∈ xs ++ ys
  mem-append_right [] ys m = m
  mem-append_right (x ∷ xs) ys m = inr (mem-append_right xs ys m)

  pub mem-append : (xs ys : List A) → a ∈ xs ++ ys → (a ∈ xs) ⊎ (a ∈ ys)
  mem-append [] ys m = inr m
  mem-append (x ∷ xs) ys (inl e) = inl (inl e)
  mem-append (x ∷ xs) ys (inr m) = elim (mem-append xs ys m) [ inl l ↦ inl (inr l) | inr r ↦ inr r ]

pub All-mem {κ} : {A : Type 0} (P : A → Type κ) (a : A) (xs : List A) → All P xs → a ∈ xs → P a
All-mem P a [] h m = absurd m
All-mem P a (x ∷ xs) h (inl e) = rw e h.0
All-mem P a (x ∷ xs) h (inr m) = All-mem P a xs h.1 m

module _ {ℓ} {A : Type ℓ} where
  -- A prefix is a shorter prefix and the slice behind it.
  pub take_split :
      (i j : ℕ) (xs : List A) → i ≤ j → take j xs ≡ take i xs ++ take (j - i) (drop i xs)
  take_split zero j xs h = let e : j - 0 ≡ j = omega arith in rw e
  take_split (suc i) zero xs h = absurd (omega arith)
  take_split (suc i) (suc j) [] h =
      let e : suc j - suc i ≡ j - i = omega arith in rw e (take-nil (j - i))
    where
      take-nil : (n : ℕ) → ◌≡◌ {A = List A} [] (take n [])
      take-nil zero = refl
      take-nil (suc n) = refl
  take_split (suc i) (suc j) (x ∷ xs) h =
      let e : suc j - suc i ≡ j - i = omega arith in
      rw e (ap (◌∷◌ x) (take_split i j xs (omega arith)))

  pub take_all : (n : ℕ) (xs : List A) → length xs ≤ n → take n xs ≡ xs
  take_all zero [] h = refl
  take_all zero (x ∷ xs) h = absurd (omega arith)
  take_all (suc n) [] h = refl
  take_all (suc n) (x ∷ xs) h = ap (◌∷◌ x) (take_all n xs (omega arith))
