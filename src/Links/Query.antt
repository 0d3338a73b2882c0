-- ===== src/Links/Query.antt =====
-- The queries of src/links.rs: backlinks, the links of a file, orphans, and the files within a
-- number of hops.
pub mod Backlinks
use package.markdown_vdb.Base.{
  ℕ, zero, suc, ◌+◌, min, Bool, true, false, List, [], ◌∷◌, ◌++◌, ◌&&◌, ◌||◌, not, ◌==◌,
  if◌then◌else◌, Option, none, some, Text, text_key, text_eq, is_empty, filter, map, ltb, leb,
  length,
}
use package.markdown_vdb.Base.Map.{lookup, insert, contains}
use package.markdown_vdb.Base.Sort.{sort_by, text_le}
use package.markdown_vdb.Links.{
  LinkEntry, LinkMap, LinkGraph, LinkState, valid, broken, ResolvedLink, LinkQueryResult,
}

-- `.cloned().unwrap_or_default()`, and the value behind `.entry(k).or_default()`.
abbrev pub or_default {ℓ} : {A : Type ℓ} → Option (List A) → List A
or_default none = []
or_default (some es) = es

abbrev pub is_some {ℓ} : {A : Type ℓ} → Option A → Bool
is_some none = false
is_some (some a) = true

pub push_backlink : LinkEntry → LinkMap → LinkMap
unfolding lookup insert
push_backlink e m = insert e.target (or_default (lookup e.target m) ++ e ∷ []) m

pub push_backlinks : List LinkEntry → LinkMap → LinkMap
unfolding push_backlink
push_backlinks [] m = m
push_backlinks (e ∷ es) m = push_backlinks es (push_backlink e m)

-- The two loops of `compute_backlinks`, over the values of `forward`.
pub backlinks_from : LinkMap → LinkMap → LinkMap
unfolding push_backlinks
backlinks_from [] m = m
backlinks_from ((source, entries) ∷ forward) m = backlinks_from forward (push_backlinks entries m)

unfoldable pub compute_backlinks : LinkMap → LinkMap
unfolding backlinks_from
compute_backlinks forward = backlinks_from forward []

unfoldable pub link_state : List Text → Text → LinkState
unfolding contains
link_state known target = if contains target known then valid else broken

unfoldable pub query_links : Text → LinkMap → LinkMap → List Text → LinkQueryResult
unfolding lookup link_state
query_links file forward backlinks known = record {
  file = file;
  outgoing =
      map (λ e. record { entry = e; state = link_state known e.target })
        (or_default (lookup file forward));
  incoming = or_default (lookup file backlinks);
}

pub is_orphan : LinkMap → LinkMap → Text → Bool
unfolding lookup
is_orphan forward backlinks file =
    not (is_some (lookup file forward)) && not (is_some (lookup file backlinks))

-- The paths of the `OrphanFile`s.
unfoldable pub find_orphans : LinkMap → List Text → List Text
unfolding is_orphan compute_backlinks sort_by text_le
find_orphans forward all_files =
    sort_by text_le (filter (is_orphan forward (compute_backlinks forward)) all_files)
