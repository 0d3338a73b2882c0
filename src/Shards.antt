-- ===== src/Shards.antt =====
-- src/shards.rs: the checks of Shard definitions, their set, and the hierarchy of their folders.
-- The state of the file system and `str::to_lowercase` are arguments; an error is its message.
pub mod Paths
pub mod Definitions
pub mod Parents
pub mod Folders
pub mod Store
mod Tests
use package.markdown_vdb.Base.{
  ℕ, suc, ◌+◌, Bool, true, false, ◌&&◌, ◌||◌, not, List, [], ◌∷◌, ◌++◌, map, filter, Option, none,
  some, Text, text_key, text_eq, is_empty, length, leb, ltb, ◌==◌, if◌then◌else◌,
}
use package.markdown_vdb.Base.Strings.{
  codes, trim, replace_char, contains_char, split, join, starts_with, ends_with, strip_prefix,
}
use package.markdown_vdb.Base.Map.{contains, lookup}
use package.markdown_vdb.Base.Sort.{sort_by, text_le}
use package.markdown_vdb.Base.Result.{Result, ok, err}
use package.markdown_vdb.PathUtil.{path_is_in_scope}

pub record ShardDefinition : Type 0 where
  pub id : Text
  pub name : Text
  pub path : Text

pub record ShardInfo : Type 0 where
  pub id : Text
  pub name : Text
  pub path : Text
  pub parent_id : Option Text
  pub exists : Bool

pub record ShardList : Type 0 where
  pub shards : List ShardInfo
  pub total_shards : ℕ

abbrev pub is_lowercase : ℕ → Bool
is_lowercase c = leb b'a' c && leb c b'z'

abbrev pub is_digit : ℕ → Bool
is_digit c = leb b'0' c && leb c b'9'

abbrev pub is_id_char : ℕ → Bool
is_id_char c = is_lowercase c || (is_digit c || c == b'-')

abbrev pub all_chars : (ℕ → Bool) → Text → Bool
all_chars p [] = true
all_chars p (c ∷ cs) = p c && all_chars p cs

-- `windows(2).any(|pair| pair == b"--")`.
pub has_double_hyphen : Text → Bool
has_double_hyphen (a ∷ b ∷ cs) = (a == b'-' && b == b'-') || has_double_hyphen (b ∷ cs)
has_double_hyphen (a ∷ []) = false
has_double_hyphen [] = false

pub is_valid_id : Text → Bool
unfolding has_double_hyphen starts_with ends_with
is_valid_id id =
    not (is_empty id)
    && (not (starts_with (codes "-") id)
        && (not (ends_with (codes "-") id)
            && (all_chars is_id_char id && not (has_double_hyphen id))))

pub validate_id : Text → Result Text (Unit {0})
unfolding is_valid_id
validate_id id =
    if is_valid_id id
    then ok tt
    else err (
        codes "Shard ID '"
        ++ (id ++ codes "' must be kebab-case (lowercase letters, digits, and single hyphens)"))

pub normalize_name : Text → Result Text Text
unfolding trim
normalize_name name =
    if is_empty (trim name) then err (codes "Shard name cannot be empty") else ok (trim name)

-- `u8::is_ascii_alphabetic`, and `eq_ignore_ascii_case`.
abbrev pub is_alphabetic : ℕ → Bool
is_alphabetic c = is_lowercase c || (leb b'A' c && leb c b'Z')

abbrev pub ascii_lower : ℕ → ℕ
ascii_lower c = if leb b'A' c && leb c b'Z' then c + 32 else c

abbrev pub eq_ignore_ascii_case : Text → Text → Bool
eq_ignore_ascii_case a b = text_eq (map ascii_lower a) (map ascii_lower b)

abbrev pub is_windows_drive_path : Text → Bool
is_windows_drive_path (a ∷ b ∷ cs) = is_alphabetic a && b == b':'
is_windows_drive_path (a ∷ []) = false
is_windows_drive_path [] = false

-- The components that the loop pushes.
pub shard_components : Text → List Text → Result Text (List Text)
unfolding text_eq contains_char
shard_components path [] = ok []
shard_components path (c ∷ cs) =
    let rest = shard_components path cs in
    let pushed : Result Text (List Text) = elim rest [ err e ↦ err e | ok ps ↦ ok (c ∷ ps) ] in
    if text_eq c [] || text_eq c (codes ".")
    then rest
    else if text_eq c (codes "..")
    then err (codes "Shard path '" ++ (path ++ codes "' cannot contain '..'"))
    else if eq_ignore_ascii_case c (codes ".markdownvdb")
    then err (codes "Shard paths cannot target an internal .markdownvdb directory")
    else if contains_char 0 c
    then err (codes "Shard paths cannot contain NUL bytes")
    else pushed

abbrev pub join_components : List Text → Result Text Text
join_components [] = err (codes "Shard path cannot be empty or the collection root")
join_components (c ∷ cs) = ok (join (codes "/") (c ∷ cs))

pub normalize_shard_path : Text → Result Text Text
unfolding shard_components trim replace_char split starts_with join
normalize_shard_path path =
    let replaced = replace_char b'\\' b'/' (trim path) in
    let joined : Result Text Text = elim (shard_components path (split b'/' replaced)) [
      | err e ↦ err e
      | ok cs ↦ join_components cs
    ] in
    if starts_with (codes "/") replaced || is_windows_drive_path replaced
    then err (codes "Shard path '" ++ (path ++ codes "' must be collection-root-relative"))
    else joined

pub normalize_definition : ShardDefinition → Result Text ShardDefinition
unfolding validate_id normalize_name normalize_shard_path
normalize_definition d = elim (validate_id d.id) [
  | err e ↦ err e
  | ok fine ↦ elim (normalize_name d.name) [
    | err e ↦ err e
    | ok name ↦ elim (normalize_shard_path d.path) [
      | err e ↦ err e
      | ok path ↦ ok (record { id = d.id; name = name; path = path })
    ]
  ]
]

-- `relative_to_scope`, which the code asks only whether it gives something.
pub relative_to_scope : Text → Text → Option Text
unfolding path_is_in_scope text_eq strip_prefix
relative_to_scope path scope =
    let below : Option Text = elim (strip_prefix scope path) [
      | none ↦ none
      | some rest ↦ strip_prefix (codes "/") rest
    ] in
    if not (path_is_in_scope path scope)
    then none
    else if text_eq path scope
    then some []
    else below

abbrev pub is_some : Option Text → Bool
is_some none = false
is_some (some t) = true

pub component_count : Text → ℕ
unfolding split
component_count path = length (split b'/' path)

-- `max_by_key`: the last of the elements with the greatest key.
pub max_by_key : (ShardDefinition → ℕ) → List ShardDefinition → Option ShardDefinition
max_by_key key [] = none
max_by_key key (d ∷ ds) = elim (max_by_key key ds) [
  | none ↦ some d
  | some best ↦ if leb (key d) (key best) then some best else some d
]

abbrev pub encloses : ShardDefinition → ShardDefinition → Bool
encloses definition candidate =
    not (text_eq candidate.id definition.id)
    && is_some (relative_to_scope definition.path candidate.path)

-- The definition whose id is `parent_id`.
pub parent_of : ShardDefinition → List ShardDefinition → Option ShardDefinition
unfolding max_by_key relative_to_scope component_count text_eq
parent_of definition definitions =
    max_by_key (λ c. component_count c.path) (filter (encloses definition) definitions)

abbrev pub id_of : Option ShardDefinition → Option Text
id_of none = none
id_of (some d) = some d.id

-- `compare_component_paths` is not `Greater`, and is `Equal`.
abbrev pub components_le : List Text → List Text → Bool
components_le [] bs = true
components_le (a ∷ as') [] = false
components_le (a ∷ as') (b ∷ bs) = if text_eq a b then components_le as' bs else text_le a b

module _ (to_lowercase : Text → Text) (is_dir : Text → Bool) where
  pub make_info : ShardDefinition → List ShardDefinition → ShardInfo
  unfolding parent_of
  make_info definition definitions = record {
    id = definition.id;
    name = definition.name;
    path = definition.path;
    parent_id = id_of (parent_of definition definitions);
    exists = is_dir definition.path;
  }

  -- The order of `sort_infos`: by path, then by name, then by id.
  abbrev pub info_le : ShardInfo → ShardInfo → Bool
  info_le a b =
      if not (text_eq a.path b.path)
      then components_le (split b'/' a.path) (split b'/' b.path)
      else if not (text_eq (to_lowercase a.name) (to_lowercase b.name))
      then text_le (to_lowercase a.name) (to_lowercase b.name)
      else text_le a.id b.id

  pub make_list : List ShardDefinition → ShardList
  unfolding make_info sort_by text_le text_eq split
  make_list definitions = record {
    shards = sort_by info_le (map (λ d. make_info d definitions) definitions);
    total_shards = length definitions;
  }

module _ (to_lowercase : Text → Text) where
  -- The loop of `validate_definition_set` behind some definitions: their ids, and their folded
  -- names and their paths with the ids.
  pub validate_rest :
      List Text
      → List (Text × Text)
      → List (Text × Text)
      → List ShardDefinition
      → Result Text (Unit {0})
  unfolding validate_id lookup contains
  validate_rest ids names paths [] = ok tt
  validate_rest ids names paths (d ∷ ds) =
      let rest =
        validate_rest (d.id ∷ ids) ((to_lowercase d.name, d.id) ∷ names) ((d.path, d.id) ∷ paths)
          ds in
      elim (validate_id d.id) [
        | err e ↦ err e
        | ok fine ↦
            if contains d.id ids
            then err (codes "duplicate Shard ID '" ++ (d.id ++ codes "'"))
            else elim (lookup (to_lowercase d.name) names) [
              | some old ↦ err (
                  codes "Shard names must be unique ignoring case ('"
                  ++ (old ++ (codes "' and '" ++ (d.id ++ codes "')"))))
              | none ↦ elim (lookup d.path paths) [
                | some old ↦ err (
                    codes "Shard paths must be unique ('"
                    ++ (old ++ (codes "' and '" ++ (d.id ++ codes "')"))))
                | none ↦ rest
              ]
            ]
      ]

  pub validate_definition_set : List ShardDefinition → Result Text (Unit {0})
  unfolding validate_rest
  validate_definition_set definitions = validate_rest [] [] [] definitions
