-- ===== src/Links/Query/Backlinks.antt =====
-- The backlinks are the inverse of the forward links, and the queries that rest on them.
use mathlib.Core.List.{append_assoc, append-nil}
use mathlib.Core.Logic.{◌↔◌}
use markdown_vdb.Base.{
  Bool, true, List, [], ◌∷◌, ◌++◌, ◌≡◌, ◌≢◌, refl, sym, ap, ◌∙◌, inl, inr, arith, Option, none,
  some, Text, text_key, text_eq, text_eq_iff, filter, filter-append, Bool-cases, ◌∈◌, not,
}
use markdown_vdb.Base.Map.{lookup, lookup-insert}
use markdown_vdb.Base.Sort.{
  text_le, mem-sort_by, IsSorted, sort_by-IsSorted, text_le_total, text_le_trans,
}
use markdown_vdb.Links.{LinkEntry, LinkMap}
use markdown_vdb.Links.Query.{
  or_default, is_some, push_backlink, push_backlinks, backlinks_from, compute_backlinks, is_orphan,
  find_orphans,
}

-- All entries of the graph, in its order.
abbrev pub all_entries : LinkMap → List LinkEntry
all_entries [] = []
all_entries ((k, es) ∷ m) = es ++ all_entries m

-- The entries that point to a path.
abbrev pub pointing_to : Text → List LinkEntry → List LinkEntry
pointing_to path = filter (λ e. text_eq e.target path)

-- A list behind what a lookup found; nothing if both are empty.
abbrev pub extend : Option (List LinkEntry) → List LinkEntry → Option (List LinkEntry)
extend o [] = o
extend o (e ∷ es) = some (or_default o ++ e ∷ es)

extend-extend :
    (o : Option (List LinkEntry)) (es fs : List LinkEntry)
    → extend (extend o es) fs ≡ extend o (es ++ fs)
extend-extend o [] fs = refl
extend-extend o (e ∷ es) [] = ap (λ t. some (or_default o ++ e ∷ t)) (sym (append-nil es))
extend-extend o (e ∷ es) (f ∷ fs) = ap some (append_assoc (or_default o) (e ∷ es) (f ∷ fs))

lookup-push_backlink :
    (path : Text) (e : LinkEntry) (m : LinkMap)
    → lookup path (push_backlink e m) ≡ extend (lookup path m) (pointing_to path (e ∷ []))
unfolding push_backlink
lookup-push_backlink path e m =
    lookup-insert e.target path (or_default (lookup e.target m) ++ e ∷ []) m
    ∙ ground (arith, text_eq_iff e.target path)

lookup-push_backlinks :
    (path : Text) (es : List LinkEntry) (m : LinkMap)
    → lookup path (push_backlinks es m) ≡ extend (lookup path m) (pointing_to path es)
unfolding push_backlinks
lookup-push_backlinks path [] m = refl
lookup-push_backlinks path (e ∷ es) m =
    lookup-push_backlinks path es (push_backlink e m)
    ∙ ap (λ o. extend o (pointing_to path es)) (lookup-push_backlink path e m)
    ∙ extend-extend (lookup path m) (pointing_to path (e ∷ [])) (pointing_to path es)
    ∙ ap (extend (lookup path m)) (sym (filter-append (λ x. text_eq x.target path) (e ∷ []) es))

lookup-backlinks_from :
    (path : Text) (forward m : LinkMap)
    → lookup path (backlinks_from forward m)
      ≡ extend (lookup path m) (pointing_to path (all_entries forward))
unfolding backlinks_from
lookup-backlinks_from path [] m = refl
lookup-backlinks_from path ((k, es) ∷ forward) m =
    lookup-backlinks_from path forward (push_backlinks es m)
    ∙ ap (λ o. extend o (pointing_to path (all_entries forward))) (lookup-push_backlinks path es m)
    ∙ extend-extend (lookup path m) (pointing_to path es) (pointing_to path (all_entries forward))
    ∙ ap (extend (lookup path m))
        (sym (filter-append (λ x. text_eq x.target path) es (all_entries forward)))

-- Under each path, the backlinks hold exactly the entries of the graph that point to it, each as
-- often as it stands there and in the order of the graph; a path to which none points has no list.
pub lookup-compute_backlinks :
    (path : Text) (forward : LinkMap)
    → lookup path (compute_backlinks forward) ≡ extend none (pointing_to path (all_entries forward))
unfolding compute_backlinks lookup
lookup-compute_backlinks path forward = lookup-backlinks_from path forward []

mem-filter :
    {A : Type 0} (p : A → Bool) (a : A) (xs : List A)
    → (a ∈ filter p xs) ↔ ((a ∈ xs) × (p a ≡ true))
mem-filter p a [] = (λ m. absurd m, λ m. absurd m.0)
mem-filter p a (x ∷ xs) = elim (Bool-cases (p x)) [
  | inl e ↦
      rw e (λ m. ground (arith, (mem-filter p a xs).0), λ m. ground (arith, (mem-filter p a xs).1))
  | inr e ↦
      rw e (λ m. ground (arith, (mem-filter p a xs).0), λ m. ground (arith, (mem-filter p a xs).1))
]

-- No link leads from the file or to it.
abbrev pub IsIsolated : LinkMap → Text → Type 0
IsIsolated forward file =
    (lookup file forward ≡ none) × ((e : LinkEntry) → e ∈ all_entries forward → e.target ≢ file)

pointing_to-none :
    (path : Text) (es : List LinkEntry)
    → (extend none (pointing_to path es) ≡ none) ↔ ((e : LinkEntry) → e ∈ es → e.target ≢ path)
pointing_to-none path es = (forward, back)
  where
    forward : extend none (pointing_to path es) ≡ none → (e : LinkEntry) → e ∈ es → e.target ≢ path
    forward h e m t =
        nothing (pointing_to path es) h e
          ((mem-filter (λ x. text_eq x.target path) e es).1 (m, (text_eq_iff e.target path).1 t))
      where
        nothing : (fs : List LinkEntry) → extend none fs ≡ none → (x : LinkEntry) → x ∈ fs → ⊥
        nothing [] q x n = n
        nothing (f ∷ fs) q x n = cc

    empty : (fs : List LinkEntry) → ((x : LinkEntry) → x ∈ fs → ⊥) → extend none fs ≡ none
    empty [] none_in = refl
    empty (f ∷ fs) none_in = absurd (none_in f (inl refl))

    back : ((e : LinkEntry) → e ∈ es → e.target ≢ path) → extend none (pointing_to path es) ≡ none
    back all = empty (pointing_to path es) (λ x n.
        let (m, t) = (mem-filter (λ y. text_eq y.target path) x es).0 n in
        all x m ((text_eq_iff x.target path).0 t))

is_some-none : {A : Type 0} (o : Option A) → (not (is_some o) ≡ true) ↔ (o ≡ none)
is_some-none none = (λ h. refl, λ h. refl)
is_some-none (some a) = (λ h. cc, λ h. cc)

is_orphan_iff :
    (forward : LinkMap) (file : Text)
    → (is_orphan forward (compute_backlinks forward) file ≡ true) ↔ IsIsolated forward file
unfolding is_orphan
is_orphan_iff forward file =
    let out = is_some-none (lookup file forward) in
    let back = is_some-none (lookup file (compute_backlinks forward)) in
    let points = pointing_to-none file (all_entries forward) in
    let eq = lookup-compute_backlinks file forward in
    (
      λ h. (out.0 (ground arith), points.0 (sym eq ∙ back.0 (ground arith))),
      λ (o, p). ground (arith, out.1 o, back.1 (eq ∙ points.1 p)),
    )

-- The orphans are exactly the files of the collection from which no link leads and to which no
-- link of the graph points, and they come in the order of their paths.
pub find_orphans_iff :
    (forward : LinkMap) (files : List Text)
    → ((file : Text)
        → (file ∈ find_orphans forward files) ↔ ((file ∈ files) × IsIsolated forward file))
      × IsSorted text_le (find_orphans forward files)
unfolding find_orphans
find_orphans_iff forward files = (
  λ file.
      let orphan = is_orphan forward (compute_backlinks forward) in
      let sorted = mem-sort_by text_le file (filter orphan files) in
      let kept = mem-filter orphan file files in
      let isolated = is_orphan_iff forward file in
      (
        λ m. ((kept.0 (sorted.0 m)).0, isolated.0 (kept.0 (sorted.0 m)).1),
        λ (m, i). sorted.1 (kept.1 (m, isolated.1 i)),
      ),
  sort_by-IsSorted text_le text_le_total text_le_trans
      (filter (is_orphan forward (compute_backlinks forward)) files),
)
