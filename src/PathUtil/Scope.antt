-- ===== src/PathUtil/Scope.antt =====
-- The scope test of src/path_util.rs is the prefix order on the segments of paths.
use markdown_vdb.Base.{
  true, List, [], ◌∷◌, ◌++◌, ◌≡◌, ◌↔◌, ◌⊎◌, inl, inr, refl, sym, ap, ◌∙◌, arith, Option, some, none,
  Text, text_eq_iff, is_empty, append-nil,
}
use markdown_vdb.Base.Strings.{codes, strip_prefix, strip_prefix_iff, starts_with, split, join}
use markdown_vdb.Base.Strings.Pieces.{split-append, join-split, join-append, split-ne-nil}
use markdown_vdb.PathUtil.{scope_form, suffix_slash, form_is_in_scope, path_is_in_scope}

-- The segments of a path in scope form.
abbrev pub segments : Text → List Text
segments = split b'/'

abbrev pub IsRoot : Text → Type 0
IsRoot scope = (scope ≡ []) ⊎ (scope ≡ codes ".")

-- `scope` names the collection root, or its segments are the first ones of `path`.
abbrev pub Within : Text → Text → Type 0
Within path scope = IsRoot scope ⊎ ((rest : List Text) × (segments path ≡ segments scope ++ rest))

-- The test of the code, read as texts.
abbrev pub Below : Text → Text → Type 0
Below path scope = IsRoot scope ⊎ (path ≡ scope) ⊎ ((rest : Text) × (path ≡ scope ++ b'/' ∷ rest))

starts_with-slash :
    (s : Text) → (starts_with (codes "/") s ≡ true) ↔ ((rest : Text) × (s ≡ b'/' ∷ rest))
unfolding starts_with strip_prefix
starts_with-slash [] = (ground arith, λ h. ground arith)
starts_with-slash (c ∷ cs) = (λ h. (cs, ground arith), λ h. ground (arith, h.1))

suffix_slash_sound :
    (scope path : Text)
    → suffix_slash scope path ≡ true
    → (rest : Text) × (path ≡ scope ++ b'/' ∷ rest)
unfolding suffix_slash
suffix_slash_sound scope path = go (strip_prefix scope path) refl
  where
    go :
        (o : Option Text)
        → strip_prefix scope path ≡ o
        → suffix_slash scope path ≡ true
        → (rest : Text) × (path ≡ scope ++ b'/' ∷ rest)
    go none e h = cc
    go (some s) e h =
        let (rest, p) = (starts_with-slash s).0 (rw (e, suffix_slash) at h) in
        (rest, (strip_prefix_iff scope path s).0 e ∙ ap (λ t. scope ++ t) p)

suffix_slash_complete :
    (scope path rest : Text) → path ≡ scope ++ b'/' ∷ rest → suffix_slash scope path ≡ true
unfolding suffix_slash
suffix_slash_complete scope path rest e =
    rw ((strip_prefix_iff scope path (b'/' ∷ rest)).1 e, suffix_slash)
      ((starts_with-slash (b'/' ∷ rest)).1 (rest, refl))

is_empty_iff : (s : Text) → (is_empty s ≡ true) ↔ (s ≡ [])
is_empty_iff [] = ground arith
is_empty_iff (c ∷ cs) = ground arith

form_is_in_scope-Below :
    (path scope : Text) → (form_is_in_scope path scope ≡ true) ↔ Below path scope
unfolding form_is_in_scope
form_is_in_scope-Below path scope = (
  λ h. ground (
    arith,
    is_empty_iff scope,
    text_eq_iff scope (codes "."),
    text_eq_iff path scope,
    suffix_slash_sound scope path,
  ),
  λ h. ground (
    arith,
    is_empty_iff scope,
    text_eq_iff scope (codes "."),
    text_eq_iff path scope,
    λ (p : (rest : Text) × (path ≡ scope ++ b'/' ∷ rest)). suffix_slash_complete scope path p.0 p.1,
  ),
)

pub Below-Within : (path scope : Text) → Below path scope ↔ Within path scope
Below-Within path scope = (forward, back)
  where
    forward : Below path scope → Within path scope
    forward (inl r) = inl r
    forward (inr (inl e)) = inr ([], rw (e, append-nil))
    forward (inr (inr (rest, e))) =
        inr (segments rest, ap segments e ∙ split-append b'/' scope rest)

    back : Within path scope → Below path scope
    back (inl r) = inl r
    back (inr ([], e)) = inr (
        inl (
          sym (join-split b'/' path)
          ∙ ap (join (b'/' ∷ [])) (rw append-nil at e)
          ∙ join-split b'/' scope))
    back (inr (q ∷ qs, e)) = inr (
        inr (
          join (b'/' ∷ []) (q ∷ qs),
          sym (join-split b'/' path)
              ∙ ap (join (b'/' ∷ [])) e
              ∙ join-append b'/' (segments scope) (q ∷ qs) (split-ne-nil b'/' scope) (λ n. cc)
              ∙ ap (λ t. t ++ b'/' ∷ join (b'/' ∷ []) (q ∷ qs)) (join-split b'/' scope),
        ))

-- `path_is_in_scope` answers true exactly when the scope names the collection root, or when the
-- `/`-separated segments of the scope are the first segments of the path; both are compared in
-- scope form, that is with `\\` turned into `/`, one leading `./` off and trailing `/` off.
pub path_is_in_scope_iff :
    (path scope : Text)
    → (path_is_in_scope path scope ≡ true) ↔ Within (scope_form path) (scope_form scope)
unfolding path_is_in_scope
path_is_in_scope_iff path scope =
    let a = form_is_in_scope-Below (scope_form path) (scope_form scope) in
    let b = Below-Within (scope_form path) (scope_form scope) in
    (λ h. b.0 (a.0 h), λ w. a.1 (b.1 w))
