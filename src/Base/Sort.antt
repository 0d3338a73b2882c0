-- ===== src/Base/Sort.antt =====
-- `sort_by`, a stable sort, as insertion sort; and the order of texts.
pub mod Unique
use mathlib.Core.Path.{◌≡◌, refl}
use mathlib.Core.Logic.{inl, inr, ◌↔◌}
use mathlib.Core.Bool.{Bool, true, false}
use mathlib.Core.List.{List, [], ◌∷◌}
use native.Mathlib.Omega.{arith}
use markdown_vdb.Base.Tests.{◌==◌, ltb, if◌then◌else◌, Bool-cases}
use markdown_vdb.Base.Equality.{Text}
use markdown_vdb.Base.Seq.{All, ◌∈◌}

-- `a.cmp(b)` is not `Greater`. UTF-8 orders texts as their code points do.
unfoldable pub text_le : Text → Text → Bool
text_le [] b = true
text_le (x ∷ a) [] = false
text_le (x ∷ a) (y ∷ b) = if x == y then text_le a b else ltb x y

pub text_le_total : (a b : Text) → text_le a b ≡ false → text_le b a ≡ true
unfolding text_le
text_le_total [] b h = cc
text_le_total (x ∷ a) [] h = refl
text_le_total (x ∷ a) (y ∷ b) h = ground (arith, text_le_total a b)

pub text_le_trans : (a b c : Text) → text_le a b ≡ true → text_le b c ≡ true → text_le a c ≡ true
unfolding text_le
text_le_trans [] b c h k = refl
text_le_trans (x ∷ a) [] c h k = cc
text_le_trans (x ∷ a) (y ∷ b) [] h k = cc
text_le_trans (x ∷ a) (y ∷ b) (z ∷ c) h k = ground (arith, text_le_trans a b c)

module _ {A : Type 0} (le : A → A → Bool) where
  unfoldable pub insert_by : A → List A → List A
  insert_by a [] = a ∷ []
  insert_by a (x ∷ xs) = if le a x then a ∷ x ∷ xs else x ∷ insert_by a xs

  -- An element is put before its equals, which come after it in the list.
  unfoldable pub sort_by : List A → List A
  unfolding insert_by
  sort_by [] = []
  sort_by (x ∷ xs) = insert_by x (sort_by xs)

  abbrev pub IsSorted : List A → Type 0
  IsSorted [] = Unit
  IsSorted (x ∷ xs) = All (λ y. le x y ≡ true) xs × IsSorted xs

  pub mem-insert_by : (a b : A) (xs : List A) → (b ∈ insert_by a xs) ↔ (b ∈ a ∷ xs)
  unfolding insert_by
  mem-insert_by a b [] = (λ m. m, λ m. m)
  mem-insert_by a b (x ∷ xs) = elim (Bool-cases (le a x)) [
    | inl e ↦ rw e (λ m. m, λ m. m)
    | inr e ↦ rw e (
      λ m. ground (arith, (mem-insert_by a b xs).0),
      λ m. ground (arith, (mem-insert_by a b xs).1),
    )
  ]

  -- Sorting keeps the elements.
  pub mem-sort_by : (b : A) (xs : List A) → (b ∈ sort_by xs) ↔ (b ∈ xs)
  unfolding sort_by
  mem-sort_by b [] = (λ m. m, λ m. m)
  mem-sort_by b (x ∷ xs) =
      let i = mem-insert_by x b (sort_by xs) in
      let ih = mem-sort_by b xs in
      (
        λ m. elim (i.0 m) [ inl e ↦ inl e | inr n ↦ inr (ih.0 n) ],
        λ m. i.1 (elim m [ inl e ↦ inl e | inr n ↦ inr (ih.1 n) ]),
      )

  module _ (total : (a b : A) → le a b ≡ false → le b a ≡ true)
      (trans : (a b c : A) → le a b ≡ true → le b c ≡ true → le a c ≡ true) where
    All-insert_by :
        (y a : A) (xs : List A)
        → le y a ≡ true
        → All (λ z. le y z ≡ true) xs
        → All (λ z. le y z ≡ true) (insert_by a xs)
    unfolding insert_by
    All-insert_by y a [] h all = (h, tt)
    All-insert_by y a (x ∷ xs) h all = elim (Bool-cases (le a x)) [
      | inl e ↦ rw e (h, all)
      | inr e ↦ rw e (all.0, All-insert_by y a xs h all.1)
    ]

    All-le_trans :
        (a x : A) (xs : List A)
        → le a x ≡ true
        → All (λ z. le x z ≡ true) xs
        → All (λ z. le a z ≡ true) xs
    All-le_trans a x [] h all = tt
    All-le_trans a x (z ∷ xs) h all = (trans a x z h all.0, All-le_trans a x xs h all.1)

    insert_by-IsSorted : (a : A) (xs : List A) → IsSorted xs → IsSorted (insert_by a xs)
    unfolding insert_by
    insert_by-IsSorted a [] s = (tt, tt)
    insert_by-IsSorted a (x ∷ xs) s = elim (Bool-cases (le a x)) [
      | inl e ↦ rw e ((e, All-le_trans a x xs e s.0), s)
      | inr e ↦ rw e (All-insert_by x a xs (total a x e) s.0, insert_by-IsSorted a xs s.1)
    ]

    pub sort_by-IsSorted : (xs : List A) → IsSorted (sort_by xs)
    unfolding sort_by
    sort_by-IsSorted [] = tt
    sort_by-IsSorted (x ∷ xs) = insert_by-IsSorted x (sort_by xs) (sort_by-IsSorted xs)
