-- ===== src/Shards/Definitions.antt =====
-- Which sets of definitions are accepted.
use markdown_vdb.Base.{
  true, false, List, [], ◌∷◌, map, some, Text, text_key, ◌≡◌, ◌≢◌, ◌↔◌, refl, sym, ◌∙◌, inl, inr,
  arith, All, Bool-cases, Option-cases, Key,
}
use markdown_vdb.Base.Map.{contains, lookup, Distinct, lookup_absent, unfound_key}
use markdown_vdb.Base.Result.{ok}
use markdown_vdb.Shards.{
  ShardDefinition, is_valid_id, validate_id, validate_rest, validate_definition_set,
}

module _ {A : Type 0} ⦃e : Key A⦄ where
  -- Every element is none of those before it, nor of `seen`.
  abbrev AllFresh : List A → List A → Type 0
  AllFresh seen [] = Unit
  AllFresh seen (x ∷ xs) = (contains x seen ≡ false) × AllFresh (x ∷ seen) xs

  Unseen : List A → List A → Type 0
  Unseen seen xs = All (λ x. contains x seen ≡ false) xs

  Unseen-cons :
      (x : A) (seen xs : List A) → Unseen (x ∷ seen) xs ↔ ((contains x xs ≡ false) × Unseen seen xs)
  unfolding contains Unseen
  Unseen-cons x seen [] = (λ h. (refl, tt), λ h. tt)
  Unseen-cons x seen (y ∷ ys) =
      let ih = Unseen-cons x seen ys in
      (
        λ h. (
          ground (arith, h.0, ih.0 h.1, e.same_iff x y, e.same_iff y x),
          (ground (arith, h.0), (ih.0 h.1).1),
        ),
        λ h. (
          ground (arith, h.0, h.1.0, e.same_iff x y, e.same_iff y x),
          ih.1 (ground (arith, h.0), h.1.1),
        ),
      )

  AllFresh-Distinct : (seen xs : List A) → AllFresh seen xs ↔ (Distinct xs × Unseen seen xs)
  unfolding Unseen
  AllFresh-Distinct seen [] = (λ h. (tt, tt), λ h. tt)
  AllFresh-Distinct seen (x ∷ xs) =
      let ih = AllFresh-Distinct (x ∷ seen) xs in
      let un = Unseen-cons x seen xs in
      (
        λ h. (((un.0 (ih.0 h.1).1).0, (ih.0 h.1).0), (h.0, (un.0 (ih.0 h.1).1).1)),
        λ h. (h.1.0, ih.1 (h.0.1, un.1 (h.0.0, h.1.1))),
      )

  Unseen-nil : (xs : List A) → Unseen [] xs
  unfolding Unseen contains
  Unseen-nil [] = tt
  Unseen-nil (x ∷ xs) = (refl, Unseen-nil xs)

  AllFresh-nil : (xs : List A) → AllFresh [] xs ↔ Distinct xs
  AllFresh-nil xs =
      (λ h. ((AllFresh-Distinct [] xs).0 h).0, λ h. (AllFresh-Distinct [] xs).1 (h, Unseen-nil xs))

module _ (to_lowercase : Text → Text) where
  -- A definition whose id is valid, and whose id, folded name and path are none of those before.
  abbrev IsNew : List Text → List (Text × Text) → List (Text × Text) → ShardDefinition → Type 0
  IsNew ids names paths d =
      (is_valid_id d.id ≡ true)
      × (contains d.id ids ≡ false)
      × (contains (to_lowercase d.name) (map (λ p. p.0) names) ≡ false)
      × (contains d.path (map (λ p. p.0) paths) ≡ false)

  abbrev AllNew :
      List Text → List (Text × Text) → List (Text × Text) → List ShardDefinition → Type 0
  AllNew ids names paths [] = Unit
  AllNew ids names paths (d ∷ ds) =
      IsNew ids names paths d
      × AllNew (d.id ∷ ids) ((to_lowercase d.name, d.id) ∷ names) ((d.path, d.id) ∷ paths) ds

  found_key :
      (k v : Text) (m : List (Text × Text))
      → lookup k m ≡ some v
      → contains k (map (λ p. p.0) m) ≢ false
  found_key k v m found absent = absurd (cc (sym (lookup_absent k m absent) ∙ found))

  validate_rest_iff :
      (ids : List Text) (names paths : List (Text × Text)) (ds : List ShardDefinition)
      → (validate_rest to_lowercase ids names paths ds ≡ ok tt) ↔ AllNew ids names paths ds
  unfolding validate_rest validate_id
  validate_rest_iff ids names paths [] = (λ h. tt, λ h. refl)
  validate_rest_iff ids names paths (d ∷ ds) =
      let ih =
        validate_rest_iff (d.id ∷ ids) ((to_lowercase d.name, d.id) ∷ names)
          ((d.path, d.id) ∷ paths) ds in
      elim (Bool-cases (is_valid_id d.id)) [
        | inr invalid ↦ (
          λ h. absurd (cc (rw (invalid, validate_rest) at h)),
          λ h. absurd (ground (arith, invalid, h.0.0)),
        )
        | inl valid ↦ elim (Bool-cases (contains d.id ids)) [
          | inl old ↦ (
            λ h. absurd (cc (rw (valid, old, validate_rest) at h)),
            λ h. absurd (ground (arith, old, h.0.1)),
          )
          | inr new_id ↦ elim (Option-cases (lookup (to_lowercase d.name) names)) [
            | inr (v, old) ↦ (
              λ h. absurd (cc (rw (valid, new_id, old, validate_rest) at h)),
              λ h. absurd (found_key (to_lowercase d.name) v names old h.0.2),
            )
            | inl new_name ↦ elim (Option-cases (lookup d.path paths)) [
              | inr (v, old) ↦ (
                λ h. absurd (cc (rw (valid, new_id, new_name, old, validate_rest) at h)),
                λ h. absurd (found_key d.path v paths old h.0.3),
              )
              | inl new_path ↦ (
                λ h. (
                  (
                    valid,
                    new_id,
                    unfound_key (to_lowercase d.name) names new_name,
                    unfound_key d.path paths new_path,
                  ),
                  ih.0 (rw (valid, new_id, new_name, new_path, validate_rest) at h),
                ),
                λ h. rw (valid, new_id, new_name, new_path, validate_rest) (ih.1 h.1),
              )
            ]
          ]
        ]
      ]

  abbrev AreFresh :
      List Text → List (Text × Text) → List (Text × Text) → List ShardDefinition → Type 0
  AreFresh ids names paths ds =
      All (λ d. is_valid_id d.id ≡ true) ds
      × AllFresh ids (map (λ d. d.id) ds)
      × AllFresh (map (λ p. p.0) names) (map (λ d. to_lowercase d.name) ds)
      × AllFresh (map (λ p. p.0) paths) (map (λ d. d.path) ds)

  AllNew-AreFresh :
      (ids : List Text) (names paths : List (Text × Text)) (ds : List ShardDefinition)
      → AllNew ids names paths ds ↔ AreFresh ids names paths ds
  AllNew-AreFresh ids names paths [] = (λ h. (tt, tt, tt, tt), λ h. tt)
  AllNew-AreFresh ids names paths (d ∷ ds) =
      let ih =
        AllNew-AreFresh (d.id ∷ ids) ((to_lowercase d.name, d.id) ∷ names) ((d.path, d.id) ∷ paths)
          ds in
      (
        λ h. let (v, i, n, p) = ih.0 h.1 in ((h.0.0, v), (h.0.1, i), (h.0.2, n), (h.0.3, p)),
        λ h. ((h.0.0, h.1.0, h.2.0, h.3.0), ih.1 (h.0.1, h.1.1, h.2.1, h.3.1)),
      )

  -- A set of definitions is accepted exactly when every id is valid, and no two definitions have
  -- the same id, the same name up to case, or the same path.
  pub validate_definition_set_iff :
      (ds : List ShardDefinition)
      → (validate_definition_set to_lowercase ds ≡ ok tt) ↔ (
          All (λ d. is_valid_id d.id ≡ true) ds
          × Distinct (map (λ d. d.id) ds)
          × Distinct (map (λ d. to_lowercase d.name) ds)
          × Distinct (map (λ d. d.path) ds))
  unfolding validate_definition_set
  validate_definition_set_iff ds =
      let new = validate_rest_iff [] [] [] ds in
      let fresh = AllNew-AreFresh [] [] [] ds in
      (
        λ h.
            let (v, i, n, p) = fresh.0 (new.0 h) in
            (
              v,
              (AllFresh-nil (map (λ d. d.id) ds)).0 i,
              (AllFresh-nil (map (λ d. to_lowercase d.name) ds)).0 n,
              (AllFresh-nil (map (λ d. d.path) ds)).0 p,
            ),
        λ h. new.1 (
            fresh.1 (
              h.0,
              (AllFresh-nil (map (λ d. d.id) ds)).1 h.1,
              (AllFresh-nil (map (λ d. to_lowercase d.name) ds)).1 h.2,
              (AllFresh-nil (map (λ d. d.path) ds)).1 h.3,
            )),
      )
