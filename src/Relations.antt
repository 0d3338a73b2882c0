-- ===== src/Relations.antt =====
-- src/relations.rs: how a frontmatter value names another document.
pub mod Resolve
pub mod LinkShape
use package.markdown_vdb.Base.{
  Bool, true, false, List, [], ◌∷◌, ◌++◌, ◌&&◌, not, if◌then◌else◌, Option, none, some, Text,
  text_eq, text_key, is_empty,
}
use package.markdown_vdb.Base.Strings.{
  codes, trim, before, trim_start_matches, trim_end_matches, contains_char, ends_with,
}
use package.markdown_vdb.Base.Map.{contains}
use package.markdown_vdb.PathUtil.{normalize_path_input, to_slash}
use package.markdown_vdb.Paths.{normalize_path, path_join, parent}

-- What the rest of the program asks of `RelationContext`: the known files, and the answers of
-- `is_file_field`, `is_computed_field` and `target_for`, which come from the schema overlay.
pub record RelationContext : Type 0 where
  pub known_files : List Text
  pub is_file_field : Text → Text → Bool
  pub is_computed_field : Text → Text → Bool
  pub target_for : Text → Text → Option Text

unfoldable pub is_formula_field : RelationContext → Text → Text → Bool
is_formula_field ctx source field = ctx.is_computed_field source field

abbrev with_md : Text → Text
with_md s = if ends_with (codes ".md") s then s else s ++ codes ".md"

abbrev or_empty : Option Text → Text
or_empty none = []
or_empty (some dir) = dir

-- `links::resolve_link`, behind its test for an empty target.
resolve_in : Text → Text → Text
resolve_in source target =
    with_md (
      to_slash
        (normalize_path (path_join (or_empty (parent source)) (normalize_path_input target))))

-- `links::resolve_link` of src/links.rs.
unfoldable pub resolve_link : Text → Text → Text
unfolding resolve_in trim before to_slash normalize_path path_join parent normalize_path_input
    ends_with
resolve_link source target =
    let t = before b'#' (trim target) in if is_empty t then [] else resolve_in source t

-- Step 1 of `relation_target_candidates`.
rooted_candidates : Text → Text → List Text
unfolding resolve_link
rooted_candidates source t =
    let root_candidate = with_md (to_slash (normalize_path t)) in
    let source_rel = resolve_link source t in
    if not (is_empty source_rel) && not (text_eq source_rel root_candidate)
    then root_candidate ∷ source_rel ∷ []
    else root_candidate ∷ []

-- Steps 2 and 3.
named_candidates : Text → Text → Option Text → List Text
unfolding resolve_link trim_end_matches
named_candidates source t (some folder) = (trim_end_matches b'/' folder ++ (b'/' ∷ with_md t)) ∷ []
named_candidates source t none =
    let resolved = resolve_link source t in if is_empty resolved then [] else resolved ∷ []

candidates_of : Text → Text → Option Text → List Text
unfolding rooted_candidates named_candidates
candidates_of source t folder =
    if is_empty t
    then []
    else if contains_char b'/' t
    then rooted_candidates source t
    else named_candidates source t folder

unfoldable pub relation_target_candidates : Text → Text → Option Text → List Text
unfolding candidates_of trim before normalize_path_input trim_start_matches contains_char
relation_target_candidates source target folder =
    let t = trim_start_matches b'/' (trim (normalize_path_input (before b'#' (trim target)))) in
    candidates_of source t folder

pub find_known : List Text → List Text → Option Text
unfolding contains
find_known known [] = none
find_known known (c ∷ cs) = if contains c known then some c else find_known known cs

-- `candidates.first()?`, then the first known candidate, or else the first.
pub resolve_candidates : List Text → List Text → Option (Text × Bool)
unfolding find_known
resolve_candidates known [] = none
resolve_candidates known (c ∷ cs) = elim (find_known known (c ∷ cs)) [
  | none ↦ some (c, false)
  | some found ↦ some (found, true)
]

unfoldable pub resolve_relation_target :
    Text → Text → Option Text → List Text → Option (Text × Bool)
unfolding relation_target_candidates resolve_candidates
resolve_relation_target source target folder known =
    resolve_candidates known (relation_target_candidates source target folder)
