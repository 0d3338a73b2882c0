-- ===== src/Shards/Folders.antt =====
-- `relative_to_scope` of src/shards.rs on normalized folders.
use markdown_vdb.Base.{
  ◌++◌, ◌≢◌, ap, ◌∙◌, text_eq_iff, All-map, true, false, List, [], ◌∷◌, Text, text_key, text_eq,
  ◌≡◌, refl, inl, inr, ◌∈◌, arith, All, Bool-cases,
}
use markdown_vdb.Base.Strings.{codes, strip_prefix_iff, split}
use markdown_vdb.Base.Strings.Pieces.{split-join}
use markdown_vdb.PathUtil.{path_is_in_scope, scope_form}
use markdown_vdb.PathUtil.Scope.{segments, IsRoot, Within, Below-Within, path_is_in_scope_iff}
use markdown_vdb.PathUtil.Form.{scope_form_same}
use markdown_vdb.Shards.Paths.{IsFolder, IsComponent, join-absent}
use markdown_vdb.Shards.{relative_to_scope, is_some}

-- A folder's path, read as its segments.
module _ (c : Text) (f : IsFolder c) where
  folder_segments : segments c ≡ f.first ∷ f.others
  folder_segments =
      ap segments f.joined
      ∙ split-join b'/' (f.first ∷ f.others) (λ e. cc)
          (All-map (λ p (is : IsComponent p). is.no_slash) (f.first ∷ f.others) f.components)

  folder_full : (ps : List Text) → All IsComponent ps → [] ∈ ps → ⊥
  unfolding text_eq
  folder_full [] all m = m
  folder_full (p ∷ ps) all m = elim m [
    | inl e ↦ let empty : text_eq [] [] ≡ false = rw (← e) at all.0.not_empty in absurd (cc empty)
    | inr rest ↦ folder_full ps all.1 rest
  ]

  folder_first : f.first ≢ codes "."
  unfolding text_eq
  folder_first e =
      let is_dot : text_eq (codes ".") (codes ".") ≡ false = rw e at f.components.0.not_dot in
      absurd (cc is_dot)

  folder_form : scope_form c ≡ c
  folder_form =
      let no_back =
        All-map (λ p (is : IsComponent p). is.no_backslash) (f.first ∷ f.others) f.components in
      scope_form_same c f.first f.others folder_segments folder_first
        (rw f.joined (join-absent b'/' b'\\' (f.first ∷ f.others) refl no_back))
        (λ m. folder_full (f.first ∷ f.others) f.components (rw folder_segments at m))

  folder_no_root : IsRoot c → ⊥
  unfolding split
  folder_no_root (inl e) =
      let q : [] ∷ [] ≡ f.first ∷ f.others = rw e at folder_segments in
      folder_full (f.first ∷ f.others) f.components (inl (cc q))
  folder_no_root (inr e) =
      let q : codes "." ∷ [] ≡ f.first ∷ f.others = rw e at folder_segments in folder_first (cc q)

-- The segments of the one folder are the first ones of the other's.
abbrev pub Begins : Text → Text → Type 0
Begins scope path = (rest : List Text) × (segments path ≡ segments scope ++ rest)

module _ (path scope : Text) (f : IsFolder path) (g : IsFolder scope) where
  pub relative-Begins : is_some (relative_to_scope path scope) ≡ true → Begins scope path
  unfolding relative_to_scope
  relative-Begins h = elim (Bool-cases (path_is_in_scope path scope)) [
    | inr outside ↦ absurd (cc (rw (outside, relative_to_scope) at h))
    | inl inside ↦
        let within : Within path scope =
          rw (folder_form path f, folder_form scope g) at
            ((path_is_in_scope_iff path scope).0 inside) in
        elim within [ inl root ↦ absurd (folder_no_root scope g root) | inr begins ↦ begins ]
  ]

  pub Begins-relative : Begins scope path → is_some (relative_to_scope path scope) ≡ true
  unfolding relative_to_scope
  Begins-relative begins =
      let forms : Within (scope_form path) (scope_form scope) =
        rw (folder_form path f, folder_form scope g) (inr begins) in
      let inside = (path_is_in_scope_iff path scope).1 forms in
      elim ((Below-Within path scope).1 (inr begins)) [
        | inl root ↦ absurd (folder_no_root scope g root)
        | inr below ↦ elim (Bool-cases (text_eq path scope)) [
          | inl same ↦ rw (inside, same, relative_to_scope) refl
          | inr other ↦ elim below [
            | inl same ↦ absurd (ground (arith, text_eq_iff path scope))
            | inr (rest, e) ↦
                let first = (strip_prefix_iff scope path (b'/' ∷ rest)).1 e in
                rw (inside, other, first, relative_to_scope) refl
          ]
        ]
      ]
