-- ===== src/Base/Sort/Unique.antt =====
-- A set of texts has one sorted list.
use mathlib.Core.Path.{◌≡◌, refl, sym, ◌∙◌}
use mathlib.Core.Logic.{inl, inr}
use mathlib.Core.Bool.{true, false, ◌||◌}
use mathlib.Core.List.{List, [], ◌∷◌}
use native.Mathlib.Omega.{arith}
use markdown_vdb.Base.Tests.{Bool-cases}
use markdown_vdb.Base.Equality.{Text, text_key, text_eq, text_eq_iff}
use markdown_vdb.Base.Seq.{All}
use markdown_vdb.Base.Map.{contains, contains_iff, Distinct}
use markdown_vdb.Base.Sort.{
  text_le, text_le_total, text_le_trans, insert_by, sort_by, IsSorted, mem-sort_by, mem-insert_by,
  sort_by-IsSorted,
}

text_le_antisym : (a b : Text) → text_le a b ≡ true → text_le b a ≡ true → a ≡ b
unfolding text_le
text_le_antisym [] [] h k = refl
text_le_antisym [] (y ∷ b) h k = cc
text_le_antisym (x ∷ a) [] h k = cc
text_le_antisym (x ∷ a) (y ∷ b) h k = ground (arith, text_le_antisym a b)

abbrev pub sorted : List Text → List Text
sorted = sort_by text_le

contains-insert_by :
    (j a : Text) (xs : List Text)
    → contains j (insert_by text_le a xs) ≡ (text_eq a j || contains j xs)
contains-insert_by j a xs = ground (
  arith,
  contains_iff j (insert_by text_le a xs),
  contains_iff j xs,
  mem-insert_by text_le a j xs,
  text_eq_iff a j,
)

pub contains-sorted : (j : Text) (xs : List Text) → contains j (sorted xs) ≡ contains j xs
contains-sorted j xs =
    ground (arith, contains_iff j (sorted xs), contains_iff j xs, mem-sort_by text_le j xs)

insert_by-Distinct :
    (a : Text) (xs : List Text)
    → contains a xs ≡ false
    → Distinct xs
    → Distinct (insert_by text_le a xs)
unfolding insert_by contains
insert_by-Distinct a [] n d = (refl, tt)
insert_by-Distinct a (x ∷ xs) n d = elim (Bool-cases (text_le a x)) [
  | inl e ↦ rw e (n, d)
  | inr e ↦ rw e (
    ground (arith, contains-insert_by x a xs, d.0, text_eq_iff a x, text_eq_iff x a),
    insert_by-Distinct a xs (ground arith) d.1,
  )
]

pub sorted-Distinct : (xs : List Text) → Distinct xs → Distinct (sorted xs)
unfolding sort_by
sorted-Distinct [] d = tt
sorted-Distinct (x ∷ xs) d =
    insert_by-Distinct x (sorted xs) (rw (contains-sorted x xs) d.0) (sorted-Distinct xs d.1)

All-contains :
    (x j : Text) (xs : List Text)
    → All (λ y. text_le x y ≡ true) xs
    → contains j xs ≡ true
    → text_le x j ≡ true
unfolding contains
All-contains x j [] all h = cc
All-contains x j (y ∷ xs) all h = elim (Bool-cases (text_eq y j)) [
  | inl e ↦ rw (← (text_eq_iff y j).0 e) all.0
  | inr e ↦ All-contains x j xs all.1 (rw e at h)
]

same_heads :
    (x y : Text) (xs ys : List Text)
    → All (λ z. text_le x z ≡ true) xs
    → All (λ z. text_le y z ≡ true) ys
    → contains x (x ∷ xs) ≡ contains x (y ∷ ys)
    → contains y (x ∷ xs) ≡ contains y (y ∷ ys)
    → x ≡ y
unfolding contains
same_heads x y xs ys s t p q = elim (Bool-cases (text_eq x y)) [
  | inl e ↦ (text_eq_iff x y).0 e
  | inr e ↦
      text_le_antisym x y (All-contains x y xs s (ground (arith, q, text_eq_iff y y))) (
        All-contains y x ys t
          (ground (arith, p, text_eq_iff x x, text_eq_iff x y, text_eq_iff y x)))
]

same_tails :
    (x y : Text) (xs ys : List Text)
    → x ≡ y
    → contains x xs ≡ false
    → contains y ys ≡ false
    → ((j : Text) → contains j (x ∷ xs) ≡ contains j (y ∷ ys))
    → (j : Text) → contains j xs ≡ contains j ys
unfolding contains
same_tails x y xs ys heads d f same j = elim (Bool-cases (text_eq x j)) [
  | inl e ↦ rw (← (text_eq_iff x j).0 e, d, heads, f) refl
  | inr e ↦ ground (arith, same j, rw heads at e)
]

sorted_unique :
    (xs ys : List Text)
    → IsSorted text_le xs
    → IsSorted text_le ys
    → Distinct xs
    → Distinct ys
    → ((j : Text) → contains j xs ≡ contains j ys)
    → xs ≡ ys
unfolding contains
sorted_unique [] [] s t d f same = refl
sorted_unique [] (y ∷ ys) s t d f same = absurd (ground (arith, same y, text_eq_iff y y))
sorted_unique (x ∷ xs) [] s t d f same = absurd (ground (arith, same x, text_eq_iff x x))
sorted_unique (x ∷ xs) (y ∷ ys) s t d f same =
    let heads = same_heads x y xs ys s.0 t.0 (same x) (same y) in
    let tails = sorted_unique xs ys s.1 t.1 d.1 f.1 (same_tails x y xs ys heads d.0 f.0 same) in
    rw (heads, tails) refl

-- Lists of the same distinct texts are sorted to the same list.
pub sorted_same :
    (xs ys : List Text)
    → Distinct xs
    → Distinct ys
    → ((j : Text) → contains j xs ≡ contains j ys)
    → sorted xs ≡ sorted ys
sorted_same xs ys d f same =
    sorted_unique (sorted xs) (sorted ys) (sort_by-IsSorted text_le text_le_total text_le_trans xs)
      (sort_by-IsSorted text_le text_le_total text_le_trans ys) (sorted-Distinct xs d)
      (sorted-Distinct ys f) (λ j. contains-sorted j xs ∙ same j ∙ sym (contains-sorted j ys))
