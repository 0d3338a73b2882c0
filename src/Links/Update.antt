-- ===== src/Links/Update.antt =====
-- An incremental update of the link graph gives what a rebuild gives.
use markdown_vdb.Base.{
  ℕ, false, List, [], ◌∷◌, ◌++◌, map, ◌≡◌, refl, ap, ◌∙◌, arith, Option, none, some, Text, text_key,
  text_eq, text_eq_iff, All, if◌then◌else◌,
}
use markdown_vdb.Base.Map.{lookup, remove, contains, Distinct, lookup-insert, lookup-remove}
use markdown_vdb.Parser.{MarkdownFile}
use markdown_vdb.PathUtil.{to_slash}
use markdown_vdb.Relations.{RelationContext}
use markdown_vdb.Links.{
  LinkEntry, LinkMap, LinkGraph, build_entries_for_file, insert_entries, build_forward,
  build_link_graph, update_file_links, remove_file_links,
}

abbrev pub nonempty : List LinkEntry → Option (List LinkEntry)
nonempty [] = none
nonempty (e ∷ es) = some (e ∷ es)

abbrev pub path_of : MarkdownFile → Text
path_of f = to_slash f.path

-- The paths of the files are distinct.
abbrev pub AreDistinct : List MarkdownFile → Type 0
AreDistinct fs = Distinct (map path_of fs)

module _ (ctx : RelationContext) where
  -- What the files say of one path: the links of the file at it, if it has any.
  abbrev pub links_at : List MarkdownFile → Text → Option (List LinkEntry)
  links_at [] k = none
  links_at (f ∷ fs) k =
      if text_eq (path_of f) k then nonempty (build_entries_for_file f ctx).1 else links_at fs k

  lookup-insert_entries :
      (k source : Text) (entries : List LinkEntry) (m : LinkMap)
      → lookup source m ≡ none
      → lookup k (insert_entries (source, entries) m)
        ≡ (if text_eq source k then nonempty entries else lookup k m)
  unfolding insert_entries
  lookup-insert_entries k source [] m h = ground (arith, text_eq_iff source k)
  lookup-insert_entries k source (e ∷ es) m h = lookup-insert source k (e ∷ es) m

  source_is : (f : MarkdownFile) → (build_entries_for_file f ctx).0 ≡ path_of f
  unfolding build_entries_for_file
  source_is f = refl

  inserted :
      (k : Text) (f : MarkdownFile) (m : LinkMap)
      → lookup (path_of f) m ≡ none
      → lookup k (insert_entries (build_entries_for_file f ctx) m)
        ≡ (if text_eq (path_of f) k then nonempty (build_entries_for_file f ctx).1 else lookup k m)
  unfolding build_entries_for_file
  inserted k f m h = lookup-insert_entries k (path_of f) (build_entries_for_file f ctx).1 m h

  still_absent :
      (f : MarkdownFile) (fs : List MarkdownFile) (m : LinkMap)
      → lookup (path_of f) m ≡ none
      → contains (path_of f) (map path_of fs) ≡ false
      → All (λ g. lookup (path_of g) m ≡ none) fs
      → All (λ g. lookup (path_of g) (insert_entries (build_entries_for_file f ctx) m) ≡ none) fs
  unfolding contains
  still_absent f [] m h n all = tt
  still_absent f (g ∷ fs) m h n all = (
    inserted (path_of g) f m h
        ∙ ground (
          arith,
          text_eq_iff (path_of g) (path_of f),
          text_eq_iff (path_of f) (path_of g),
          all.0,
        ),
    still_absent f fs m h (ground arith) all.1,
  )

  links_at_absent :
      (k : Text) (fs : List MarkdownFile)
      → contains k (map path_of fs) ≡ false
      → links_at fs k ≡ none
  unfolding contains
  links_at_absent k [] h = refl
  links_at_absent k (f ∷ fs) h = ground (arith, links_at_absent k fs)

  lookup-build_forward :
      (k : Text) (fs : List MarkdownFile) (m : LinkMap)
      → AreDistinct fs
      → All (λ g. lookup (path_of g) m ≡ none) fs
      → lookup k (build_forward fs ctx m)
        ≡ (if contains k (map path_of fs) then links_at fs k else lookup k m)
  unfolding build_forward contains
  lookup-build_forward k [] m d all = refl
  lookup-build_forward k (f ∷ fs) m d all =
      lookup-build_forward k fs (insert_entries (build_entries_for_file f ctx) m) d.1
        (still_absent f fs m all.0 d.0 all.1)
      ∙ ground (arith, inserted k f m all.0, text_eq_iff (path_of f) k, d.0)

  not_there :
      (fs : List MarkdownFile) → All (λ g. lookup {V = List LinkEntry} (path_of g) [] ≡ none) fs
  unfolding lookup
  not_there [] = tt
  not_there (f ∷ fs) = (refl, not_there fs)

  -- A graph built from files with distinct paths has at each path what the files say of it.
  lookup-built :
      (k : Text) (fs : List MarkdownFile)
      → AreDistinct fs
      → lookup k (build_forward fs ctx []) ≡ links_at fs k
  unfolding lookup
  lookup-built k fs d =
      lookup-build_forward k fs [] d (not_there fs) ∙ ground (arith, links_at_absent k fs)

  contains_middle :
      (p : Text) (fs : List MarkdownFile) (f : MarkdownFile) (gs : List MarkdownFile)
      → contains p (map path_of (fs ++ f ∷ gs)) ≡ false
      → text_eq (path_of f) p ≡ false
  unfolding contains
  contains_middle p [] f gs h = ground arith
  contains_middle p (x ∷ fs) f gs h = contains_middle p fs f gs (ground arith)

  module _ (f : MarkdownFile) (gs : List MarkdownFile) where
    links_at_replaced :
        (f' : MarkdownFile) (k : Text) (fs : List MarkdownFile)
        → path_of f' ≡ path_of f
        → AreDistinct (fs ++ f ∷ gs)
        → links_at (fs ++ f' ∷ gs) k ≡ (
            if text_eq (path_of f) k
            then nonempty (build_entries_for_file f' ctx).1
            else links_at (fs ++ f ∷ gs) k)
    links_at_replaced f' k [] e d = rw e (ground arith)
    links_at_replaced f' k (x ∷ fs) e d = ground (
      arith,
      links_at_replaced f' k fs e d.1,
      contains_middle (path_of x) fs f gs d.0,
      text_eq_iff (path_of x) k,
      text_eq_iff (path_of f) k,
      text_eq_iff (path_of f) (path_of x),
    )

    links_at_removed :
        (k : Text) (fs : List MarkdownFile)
        → AreDistinct (fs ++ f ∷ gs)
        → links_at (fs ++ gs) k
          ≡ (if text_eq (path_of f) k then none else links_at (fs ++ f ∷ gs) k)
    links_at_removed k [] d =
        ground (arith, text_eq_iff (path_of f) k, links_at_absent (path_of f) gs d.0)
    links_at_removed k (x ∷ fs) d = ground (
      arith,
      links_at_removed k fs d.1,
      contains_middle (path_of x) fs f gs d.0,
      text_eq_iff (path_of x) k,
      text_eq_iff (path_of f) k,
      text_eq_iff (path_of f) (path_of x),
    )

    paths_replaced :
        (f' : MarkdownFile) (fs : List MarkdownFile)
        → path_of f' ≡ path_of f
        → map path_of (fs ++ f' ∷ gs) ≡ map path_of (fs ++ f ∷ gs)
    paths_replaced f' [] e = ap (λ p. p ∷ map path_of gs) e
    paths_replaced f' (x ∷ fs) e = ap (◌∷◌ (path_of x)) (paths_replaced f' fs e)

    contains_less :
        (p : Text) (fs : List MarkdownFile)
        → contains p (map path_of (fs ++ f ∷ gs)) ≡ false
        → contains p (map path_of (fs ++ gs)) ≡ false
    unfolding contains
    contains_less p [] h = ground arith
    contains_less p (x ∷ fs) h = ground (arith, contains_less p fs)

    distinct_removed :
        (fs : List MarkdownFile) → AreDistinct (fs ++ f ∷ gs) → AreDistinct (fs ++ gs)
    distinct_removed [] d = d.1
    distinct_removed (x ∷ fs) d = (contains_less (path_of x) fs d.0, distinct_removed fs d.1)

module _ (Edges Clusters : Type 0) (now before : ℕ) (ctx : RelationContext) where
  abbrev pub built : List MarkdownFile → LinkGraph Edges Clusters
  built files = build_link_graph before files ctx

  abbrev pub Agrees : LinkGraph Edges Clusters → List MarkdownFile → Type 0
  Agrees g files = (k : Text) → lookup k g.forward ≡ lookup k (built files).forward

  -- For files with distinct paths: updating one file in the graph built from them gives at every
  -- path the links that building from the files with the new version in its place gives, and
  -- removing the file gives those of building without it.
  pub update-build :
      (fs : List MarkdownFile) (f f' : MarkdownFile) (gs : List MarkdownFile)
      → path_of f' ≡ path_of f
      → AreDistinct (fs ++ f ∷ gs)
      → Agrees (update_file_links now (built (fs ++ f ∷ gs)) f' ctx) (fs ++ f' ∷ gs)
        × Agrees (remove_file_links now (built (fs ++ f ∷ gs)) (path_of f)) (fs ++ gs)
  unfolding build_link_graph update_file_links remove_file_links build_entries_for_file
  update-build fs f f' gs e d = (
    λ k.
        lookup-insert_entries ctx k (path_of f') (build_entries_for_file f' ctx).1
          (remove (path_of f') m) (lookup-remove (path_of f') (path_of f') m ∙ gone)
        ∙ ground (
          arith,
          lookup-remove (path_of f') k m,
          lookup-built ctx k (fs ++ f ∷ gs) d,
          lookup-built ctx k (fs ++ f' ∷ gs) (rw (paths_replaced ctx f gs f' fs e) d),
          links_at_replaced ctx f gs f' k fs e d,
        ),
    λ k.
        lookup-remove (path_of f) k m
        ∙ ground (
          arith,
          lookup-built ctx k (fs ++ f ∷ gs) d,
          lookup-built ctx k (fs ++ gs) (distinct_removed ctx f gs fs d),
          links_at_removed ctx f gs k fs d,
        ),
  )
    where
      m : LinkMap
      m = build_forward (fs ++ f ∷ gs) ctx []

      gone : (if text_eq (path_of f') (path_of f') then none else lookup (path_of f') m) ≡ none
      gone = ground (arith, text_eq_iff (path_of f') (path_of f'))
