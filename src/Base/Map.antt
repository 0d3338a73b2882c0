-- ===== src/Base/Map.antt =====
-- `HashMap` and `HashSet` as association lists and lists. Their order stands for the iteration
-- order, which the program leaves open: `insert` keeps the place of a key, and puts a new one last.
use mathlib.Core.Path.{◌≡◌, refl}
use mathlib.Core.Logic.{◌↔◌, inl, inr}
use mathlib.Core.Bool.{Bool, true, false, ◌&&◌, ◌||◌}
use mathlib.Core.Option.{Option, none, some}
use mathlib.Core.List.{List, [], ◌∷◌, ◌++◌, map}
use native.Mathlib.Omega.{arith}
use markdown_vdb.Base.Tests.{if◌then◌else◌, Bool-cases}
use markdown_vdb.Base.Equality.{Key, ◌≟◌, ≟_sym}
use markdown_vdb.Base.Seq.{◌∈◌, All, filter}

module _ {K V : Type 0} ⦃e : Key K⦄ where
  unfoldable pub lookup : K → List (K × V) → Option V
  lookup k [] = none
  lookup k ((j, v) ∷ m) = if j ≟ k then some v else lookup k m

  unfoldable pub insert : K → V → List (K × V) → List (K × V)
  insert k v [] = (k, v) ∷ []
  insert k v ((j, w) ∷ m) = if j ≟ k then (j, v) ∷ m else (j, w) ∷ insert k v m

  unfoldable pub remove : K → List (K × V) → List (K × V)
  remove k [] = []
  remove k ((j, w) ∷ m) = if j ≟ k then remove k m else (j, w) ∷ remove k m

  pub lookup-insert :
      (k j : K) (v : V) (m : List (K × V))
      → lookup j (insert k v m) ≡ (if k ≟ j then some v else lookup j m)
  unfolding lookup insert
  lookup-insert k j v [] = refl
  lookup-insert k j v ((i, w) ∷ m) =
      ground (arith, e.same_iff k j, e.same_iff i k, e.same_iff i j, lookup-insert k j v m)

  pub lookup-insert_self : (k : K) (v : V) (m : List (K × V)) → lookup k (insert k v m) ≡ some v
  lookup-insert_self k v m = ground (arith, lookup-insert k k v m, e.same_iff k k)

  pub lookup-remove :
      (k j : K) (m : List (K × V)) → lookup j (remove k m) ≡ (if k ≟ j then none else lookup j m)
  unfolding lookup remove
  lookup-remove k j [] = ground arith
  lookup-remove k j ((i, w) ∷ m) =
      ground (arith, e.same_iff k j, e.same_iff i k, e.same_iff i j, lookup-remove k j m)

  -- A key that no pair of the list has.
  abbrev pub Fresh : K → List (K × V) → Type 0
  Fresh k m = All (λ p. p.0 ≟ k ≡ false) m

  -- The keys are distinct.
  abbrev pub IsMap : List (K × V) → Type 0
  IsMap [] = Unit
  IsMap ((k, v) ∷ m) = Fresh k m × IsMap m

  pub Fresh-insert :
      (k j : K) (v : V) (m : List (K × V)) → k ≟ j ≡ false → Fresh j m → Fresh j (insert k v m)
  unfolding insert
  Fresh-insert k j v [] h f = (h, tt)
  Fresh-insert k j v ((i, w) ∷ m) h f = elim (Bool-cases (i ≟ k)) [
    | inl same ↦ rw same f
    | inr other ↦ rw other (f.0, Fresh-insert k j v m h f.1)
  ]

  pub insert-IsMap : (k : K) (v : V) (m : List (K × V)) → IsMap m → IsMap (insert k v m)
  unfolding insert
  insert-IsMap k v [] h = (tt, tt)
  insert-IsMap k v ((i, w) ∷ m) h = elim (Bool-cases (i ≟ k)) [
    | inl same ↦ rw same h
    | inr other ↦ rw other (Fresh-insert k i v m (≟_sym i k other) h.0, insert-IsMap k v m h.1)
  ]

  pub Fresh-remove : (k j : K) (m : List (K × V)) → Fresh j m → Fresh j (remove k m)
  unfolding remove
  Fresh-remove k j [] f = tt
  Fresh-remove k j ((i, w) ∷ m) f = elim (Bool-cases (i ≟ k)) [
    | inl same ↦ rw same (Fresh-remove k j m f.1)
    | inr other ↦ rw other (f.0, Fresh-remove k j m f.1)
  ]

  pub remove-IsMap : (k : K) (m : List (K × V)) → IsMap m → IsMap (remove k m)
  unfolding remove
  remove-IsMap k [] h = tt
  remove-IsMap k ((i, w) ∷ m) h = elim (Bool-cases (i ≟ k)) [
    | inl same ↦ rw same (remove-IsMap k m h.1)
    | inr other ↦ rw other (Fresh-remove k i m h.0, remove-IsMap k m h.1)
  ]

  pub lookup-Fresh : (k : K) (m : List (K × V)) → Fresh k m → lookup k m ≡ none
  unfolding lookup
  lookup-Fresh k [] f = refl
  lookup-Fresh k ((i, w) ∷ m) f = rw f.0 (lookup-Fresh k m f.1)

  -- What a lookup finds is a pair of the list.
  pub lookup_mem : (k : K) (v : V) (m : List (K × V)) → lookup k m ≡ some v → (k, v) ∈ m
  unfolding lookup
  lookup_mem k v [] h = cc
  lookup_mem k v ((i, w) ∷ m) h = elim (Bool-cases (i ≟ k)) [
    | inl same ↦ inl (ground (arith, e.same_iff i k))
    | inr other ↦ inr (lookup_mem k v m (ground arith))
  ]

module _ {A : Type 0} ⦃e : Key A⦄ where
  unfoldable pub contains : A → List A → Bool
  contains a [] = false
  contains a (x ∷ xs) = if x ≟ a then true else contains a xs

  pub contains_iff : (a : A) (xs : List A) → (contains a xs ≡ true) ↔ (a ∈ xs)
  unfolding contains
  contains_iff a [] = (λ h. cc, λ h. absurd h)
  contains_iff a (x ∷ xs) = (
    λ h. ground (arith, e.same_iff x a, contains_iff a xs),
    λ h. ground (arith, e.same_iff x a, contains_iff a xs),
  )

  -- No element twice.
  abbrev pub Distinct : List A → Type 0
  Distinct [] = Unit
  Distinct (x ∷ xs) = (contains x xs ≡ false) × Distinct xs

module _ {K V : Type 0} ⦃e : Key K⦄ (P : K → V → Type 0) where
  pub All-insert :
      (k : K) (v : V) (m : List (K × V))
      → All (λ p. P p.0 p.1) m
      → P k v
      → All (λ p. P p.0 p.1) (insert k v m)
  unfolding insert
  All-insert k v [] all h = (h, tt)
  All-insert k v ((i, w) ∷ m) all h = elim (Bool-cases (i ≟ k)) [
    | inl same ↦ rw same (rw ((e.same_iff i k).0 same) h, all.1)
    | inr other ↦ rw other (all.0, All-insert k v m all.1 h)
  ]

  pub All-remove :
      (k : K) (m : List (K × V)) → All (λ p. P p.0 p.1) m → All (λ p. P p.0 p.1) (remove k m)
  unfolding remove
  All-remove k [] all = tt
  All-remove k ((i, w) ∷ m) all = elim (Bool-cases (i ≟ k)) [
    | inl same ↦ rw same (All-remove k m all.1)
    | inr other ↦ rw other (all.0, All-remove k m all.1)
  ]

module _ {A : Type 0} ⦃e : Key A⦄ where
  pub contains-filter :
      (p : A → Bool) (a : A) (xs : List A) → contains a (filter p xs) ≡ (contains a xs && p a)
  unfolding contains
  contains-filter p a [] = refl
  contains-filter p a (x ∷ xs) = ground (arith, e.same_iff x a, contains-filter p a xs)

  pub contains-append :
      (a : A) (xs ys : List A) → contains a (xs ++ ys) ≡ (contains a xs || contains a ys)
  unfolding contains
  contains-append a [] ys = refl
  contains-append a (x ∷ xs) ys = ground (arith, contains-append a xs ys)

module _ {K V : Type 0} ⦃e : Key K⦄ where
  -- A key that is not among the keys is not found.
  pub lookup_absent :
      (k : K) (m : List (K × V)) → contains k (map (λ p. p.0) m) ≡ false → lookup k m ≡ none
  unfolding contains lookup
  lookup_absent k [] h = refl
  lookup_absent k ((j, v) ∷ m) h = ground (arith, lookup_absent k m)

  -- A key that is not found is not among the keys.
  pub unfound_key :
      (k : K) (m : List (K × V)) → lookup k m ≡ none → contains k (map (λ p. p.0) m) ≡ false
  unfolding contains lookup
  unfound_key k [] h = refl
  unfound_key k ((j, v) ∷ m) h = ground (arith, unfound_key k m)

  pub found_key :
      (k : K) (m : List (K × V)) {v : V}
      → lookup k m ≡ some v
      → contains k (map (λ p. p.0) m) ≡ true
  found_key k m h = elim (Bool-cases (contains k (map (λ p. p.0) m))) [
    | inl there ↦ there
    | inr absent ↦ absurd (cc (h, lookup_absent k m absent))
  ]

  pub contains-insert :
      (k j : K) (v : V) (m : List (K × V))
      → contains j (map (λ p. p.0) (insert k v m)) ≡ (k ≟ j || contains j (map (λ p. p.0) m))
  unfolding contains insert
  contains-insert k j v [] = ground arith
  contains-insert k j v (p ∷ m) =
      ground (arith, contains-insert k j v m, e.same_iff k p.0, e.same_iff k j, e.same_iff p.0 j)

  pub contains-remove :
      (k j : K) (m : List (K × V))
      → contains j (map (λ p. p.0) (remove k m))
        ≡ (if k ≟ j then false else contains j (map (λ p. p.0) m))
  unfolding contains remove
  contains-remove k j [] = ground arith
  contains-remove k j ((i, v) ∷ m) =
      ground (arith, e.same_iff k j, e.same_iff i k, e.same_iff i j, contains-remove k j m)

  Fresh-contains : (k : K) (m : List (K × V)) → Fresh k m → contains k (map (λ p. p.0) m) ≡ false
  unfolding contains
  Fresh-contains k [] f = refl
  Fresh-contains k ((j, v) ∷ m) f = rw f.0 (Fresh-contains k m f.1)

  pub IsMap-Distinct : (m : List (K × V)) → IsMap m → Distinct (map (λ p. p.0) m)
  IsMap-Distinct [] h = tt
  IsMap-Distinct ((k, v) ∷ m) h = (Fresh-contains k m h.0, IsMap-Distinct m h.1)

module _ {A : Type 0} ⦃e : Key A⦄ where
  pub Distinct-filter : (p : A → Bool) (xs : List A) → Distinct xs → Distinct (filter p xs)
  Distinct-filter p [] d = tt
  Distinct-filter p (x ∷ xs) d = elim (Bool-cases (p x)) [
    | inl kept ↦ rw kept (ground (arith, contains-filter p x xs, d.0), Distinct-filter p xs d.1)
    | inr gone ↦ rw gone (Distinct-filter p xs d.1)
  ]
