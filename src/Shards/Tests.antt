-- ===== src/Shards/Tests.antt =====
-- A small set of Shards.
use mathlib.Core.List.Perm
use mathlib.Core.List.{Perm}
use markdown_vdb.Base.{
  inl, inr, not, true, false, List, [], ◌∷◌, filter, none, some, Text, text_key, text_eq, ◌≡◌, ◌↔◌,
  refl, sym, ◌∙◌, ◌⊎◌, ◌∈◌, All,
}
use markdown_vdb.Base.Strings.{
  codes, trim, replace_char, contains_char, split, join, starts_with, ends_with, strip_prefix,
}
use markdown_vdb.Base.Map.{Distinct, contains, lookup}
use markdown_vdb.Base.Result.{Result, ok, err}
use markdown_vdb.PathUtil.{path_is_in_scope}
use markdown_vdb.Shards.{
  ShardDefinition, ShardInfo, validate_id, has_double_hyphen, normalize_name, normalize_definition,
  make_info, max_by_key, validate_rest, is_valid_id, normalize_shard_path, shard_components,
  validate_definition_set, parent_of, component_count, relative_to_scope,
}
use markdown_vdb.Shards.Store.{
  Folders, has_id, add, parse_definitions, checked_add, normalize_all, ensure_target_directory,
}
use markdown_vdb.Shards.Store.Readable.{IsAdded, add-remove}
use markdown_vdb.Shards.Paths.{
  IsFolder, normalize_shard_path-IsFolder, normalize_shard_path-idempotent,
}
use markdown_vdb.Shards.Definitions.{validate_definition_set_iff}
use markdown_vdb.Shards.Parents.{IsAround, IsNearest, parent_of-IsNearest}

normalized : normalize_shard_path (codes " ./docs\\api//v1/ ") ≡ ok (codes "docs/api/v1")
unfolding normalize_shard_path shard_components trim replace_char split starts_with strip_prefix
    join text_eq contains_char
normalized = refl

normalize_shard_path-IsFolder_example : IsFolder (codes "docs/api/v1")
normalize_shard_path-IsFolder_example =
    normalize_shard_path-IsFolder (codes " ./docs\\api//v1/ ") (codes "docs/api/v1") normalized

normalize_shard_path-idempotent_example :
    normalize_shard_path (codes "docs/api/v1") ≡ ok (codes "docs/api/v1")
unfolding trim
normalize_shard_path-idempotent_example =
    normalize_shard_path-idempotent (codes " ./docs\\api//v1/ ") (codes "docs/api/v1") normalized
      refl refl

-- A folder that looks like a drive is accepted behind `./`, and refused when it is read back.
drive_run :
    (normalize_shard_path (codes "./C:/x") ≡ ok (codes "C:/x"))
    × (normalize_shard_path (codes "C:/x")
        ≡ err (codes "Shard path 'C:/x' must be collection-root-relative"))
unfolding normalize_shard_path shard_components trim replace_char split starts_with strip_prefix
    join text_eq contains_char
drive_run = (refl, refl)

abbrev docs : ShardDefinition
docs = record { id = codes "docs"; name = codes "Docs"; path = codes "docs" }

abbrev api : ShardDefinition
api = record { id = codes "api"; name = codes "API"; path = codes "docs/api" }

abbrev v1 : ShardDefinition
v1 = record { id = codes "v1"; name = codes "docs"; path = codes "docs/api/v1" }

validate_definition_set_iff_example :
    (validate_definition_set (λ t. t) (docs ∷ api ∷ v1 ∷ []) ≡ ok tt) ↔ (
      All (λ d. is_valid_id d.id ≡ true) (docs ∷ api ∷ v1 ∷ [])
      × Distinct (codes "docs" ∷ codes "api" ∷ codes "v1" ∷ [])
      × Distinct (codes "Docs" ∷ codes "API" ∷ codes "docs" ∷ [])
      × Distinct (codes "docs" ∷ codes "docs/api" ∷ codes "docs/api/v1" ∷ []))
validate_definition_set_iff_example = validate_definition_set_iff (λ t. t) (docs ∷ api ∷ v1 ∷ [])

parent_run : parent_of v1 (docs ∷ api ∷ v1 ∷ []) ≡ some api
unfolding parent_of relative_to_scope component_count path_is_in_scope split strip_prefix text_eq
parent_run = refl

are_folders : (c : ShardDefinition) → c ∈ docs ∷ api ∷ v1 ∷ [] → IsFolder c.path
unfolding normalize_shard_path shard_components trim replace_char split starts_with strip_prefix
    join text_eq contains_char
are_folders c (inl e) = rw e (normalize_shard_path-IsFolder (codes "docs") (codes "docs") refl)
are_folders c (inr (inl e)) =
    rw e (normalize_shard_path-IsFolder (codes "docs/api") (codes "docs/api") refl)
are_folders c (inr (inr (inl e))) =
    rw e (normalize_shard_path-IsFolder (codes "docs/api/v1") (codes "docs/api/v1") refl)
are_folders c (inr (inr (inr e))) = absurd e

parent_of-IsNearest_example :
    ((parent_of v1 (docs ∷ api ∷ v1 ∷ []) ≡ none)
      × ((c : ShardDefinition) → c ∈ docs ∷ api ∷ v1 ∷ [] → ¬ IsAround c v1))
    ⊎ ((p : ShardDefinition) × (parent_of v1 (docs ∷ api ∷ v1 ∷ []) ≡ some p)
        × IsNearest v1 (docs ∷ api ∷ v1 ∷ []) p)
parent_of-IsNearest_example =
    parent_of-IsNearest v1 (docs ∷ api ∷ v1 ∷ []) normalize_shard_path-IsFolder_example are_folders

abbrev folders : Folders
folders = record { is_dir = λ p. true; exists = λ p. true; create_dir_all = λ p. none }

abbrev info : ShardInfo
info = record {
  id = codes "api";
  name = codes "API";
  path = codes "docs/api";
  parent_id = some (codes "docs");
  exists = true;
}

normal_api : normalize_definition api ≡ ok api
unfolding normalize_definition validate_id is_valid_id has_double_hyphen starts_with ends_with
    normalize_name normalize_shard_path shard_components trim replace_char split strip_prefix join
    text_eq contains_char
normal_api = refl

added : add (λ t. t) folders (λ p. true) api false (docs ∷ []) ≡ ok (docs ∷ api ∷ [], info)
unfolding add parse_definitions checked_add normalize_all ensure_target_directory make_info
    parent_of max_by_key relative_to_scope component_count path_is_in_scope validate_definition_set
    validate_rest lookup contains normalize_definition validate_id is_valid_id has_double_hyphen
    starts_with ends_with normalize_name normalize_shard_path shard_components trim replace_char
    split strip_prefix join text_eq contains_char
added = refl

stable_api : (n : ShardDefinition) → normalize_definition api ≡ ok n → normalize_definition n ≡ ok n
stable_api n h = let same : api ≡ n = same_ok api n (sym normal_api ∙ h) in rw (← same) normal_api
  where
    same_ok : (a b : ShardDefinition) → ◌≡◌ {A = Result Text ShardDefinition} (ok a) (ok b) → a ≡ b
    same_ok a b e = cc e

-- A removal that keeps the order.
removed : Text → List ShardDefinition → List ShardDefinition
removed id = filter (λ e. not (has_id id e))

removed-Perm :
    (id : Text) (es : List ShardDefinition)
    → Perm (removed id es) (filter (λ e. not (has_id id e)) es)
unfolding removed
removed-Perm id es = Perm.refl _

add-remove_example :
    (n : ShardDefinition) × (ds : List ShardDefinition) × IsAdded
      (λ t. t)
      folders
      (λ p. true)
      api
      false
      (docs ∷ [])
      (docs ∷ api ∷ [])
      info
      added
      stable_api
      removed
      removed-Perm
      n
      ds
add-remove_example =
    add-remove (λ t. t) folders (λ p. true) api false (docs ∷ []) (docs ∷ api ∷ []) info added
      stable_api removed removed-Perm
