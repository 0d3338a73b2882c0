-- ===== src/Base/Strings/Ends.antt =====
-- `starts_with` and `ends_with` find what stands at the ends of a text.
use mathlib.Core.Path.{◌≡◌, refl, ap, sym, ◌∙◌}
use mathlib.Core.Bool.{true}
use mathlib.Core.Option.{Option, none, some}
use mathlib.Core.List.{◌++◌, append_assoc, reverse, reverse-append, reverse-reverse}
use markdown_vdb.Base.Equality.{Text}
use markdown_vdb.Base.Strings.{strip_prefix, strip_prefix_iff, starts_with, ends_with}

pub starts_with_sound : (p s : Text) → starts_with p s ≡ true → (r : Text) × (s ≡ p ++ r)
unfolding starts_with
starts_with_sound p s = go (strip_prefix p s) refl
  where
    go :
        (o : Option Text)
        → strip_prefix p s ≡ o
        → starts_with p s ≡ true
        → (r : Text) × (s ≡ p ++ r)
    go none e h = cc
    go (some r) e h = (r, (strip_prefix_iff p s r).0 e)

pub starts_with_complete : (p r : Text) → starts_with p (p ++ r) ≡ true
unfolding starts_with
starts_with_complete p r = rw ((strip_prefix_iff p (p ++ r) r).1 refl, starts_with)

pub ends_with_sound : (p s : Text) → ends_with p s ≡ true → (r : Text) × (s ≡ r ++ p)
unfolding ends_with
ends_with_sound p s h =
    let (r, e) = starts_with_sound (reverse p) (reverse s) h in
    (
      reverse r,
      sym (reverse-reverse s)
          ∙ ap reverse e
          ∙ reverse-append (reverse p) r
          ∙ ap (λ t. reverse r ++ t) (reverse-reverse p),
    )

pub ends_with_complete : (p r : Text) → ends_with p (r ++ p) ≡ true
unfolding ends_with
ends_with_complete p r = rw (reverse-append r p) (starts_with_complete (reverse p) (reverse r))

pub ends_with-append : (p a b : Text) → ends_with p b ≡ true → ends_with p (a ++ b) ≡ true
ends_with-append p a b h =
    let (r, e) = ends_with_sound p b h in
    rw (e, ← append_assoc a r p) (ends_with_complete p (a ++ r))
