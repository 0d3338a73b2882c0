-- ===== src/Shards/Store.antt =====
-- `ShardStore` of src/shards.rs: the `shards` mapping of the configuration as the list of its
-- entries, and its changes. The YAML around it, the lock and the writing are left out: a change
-- gives the mapping that is written. The file system is an argument.
pub mod Readable
use package.markdown_vdb.Base.{
  Bool, true, false, ◌||◌, not, List, [], ◌∷◌, ◌++◌, map, filter, any, Option, none, some, Text,
  text_key, text_eq, is_empty, if◌then◌else◌,
}
use package.markdown_vdb.Base.Strings.{codes}
use package.markdown_vdb.Base.Map.{contains}
use package.markdown_vdb.Base.Sort.{sort_by, text_le}
use package.markdown_vdb.Base.Result.{Result, ok, err}
use package.markdown_vdb.Shards.{
  ShardDefinition, ShardInfo, normalize_definition, normalize_name, normalize_shard_path,
  validate_definition_set, make_info, relative_to_scope, info_le,
}

-- What the file system says of a target folder: `create_dir_all` gives the error, if it fails.
pub record Folders : Type 0 where
  pub is_dir : Text → Bool
  pub exists : Text → Bool
  pub create_dir_all : Text → Option Text

unfoldable pub ensure_target_directory : Folders → Text → Bool → Result Text (Unit {0})
ensure_target_directory folders relative create_dir =
    let created : Result Text (Unit {0}) = elim (folders.create_dir_all relative) [
      | none ↦ ok tt
      | some e ↦ err (codes "failed to create Shard folder '" ++ (relative ++ (codes "': " ++ e)))
    ] in
    if folders.is_dir relative
    then ok tt
    else if folders.exists relative
    then err (codes "Shard path '" ++ (relative ++ codes "' is not a directory"))
    else if not create_dir
    then err (
        codes "Shard folder '"
        ++ (relative ++ codes "' does not exist (use --create-dir to create it)"))
    else created

-- The entries one by one.
unfoldable pub normalize_all : List ShardDefinition → Result Text (List ShardDefinition)
unfolding normalize_definition
normalize_all [] = ok []
normalize_all (d ∷ ds) =
    let rest = normalize_all ds in
    elim (normalize_definition d) [
      | err e ↦ err e
      | ok n ↦ elim rest [ err e ↦ err e | ok ns ↦ ok (n ∷ ns) ]
    ]

abbrev pub has_id : Text → ShardDefinition → Bool
has_id id d = text_eq d.id id

pub find_id : Text → List ShardDefinition → Option ShardDefinition
unfolding text_eq
find_id id [] = none
find_id id (d ∷ ds) = if has_id id d then some d else find_id id ds

-- The entry of an id is changed.
abbrev pub set_entry : ShardDefinition → List ShardDefinition → List ShardDefinition
set_entry new = map (λ d. if has_id new.id d then new else d)

abbrev pub not_found : Text → Text
not_found id = codes "Shard '" ++ (id ++ codes "' was not found")

abbrev pub renamed : Option Text → Text → Result Text Text
renamed none old = ok old
renamed (some name) old = normalize_name name

abbrev pub moved : Option Text → Text → Result Text Text
moved none old = ok old
moved (some path) old = normalize_shard_path path

abbrev pub is_given : Option Text → Bool
is_given none = false
is_given (some t) = true

-- `after` is what `is_dir` says once the change is made.
module _ (to_lowercase : Text → Text) (folders : Folders) (after : Text → Bool) where
  unfoldable pub parse_definitions : List ShardDefinition → Result Text (List ShardDefinition)
  unfolding normalize_all validate_definition_set
  parse_definitions entries = elim (normalize_all entries) [
    | err e ↦ err e
    | ok ds ↦ elim (validate_definition_set to_lowercase ds) [ err e ↦ err e | ok fine ↦ ok ds ]
  ]

  -- The checks of `add` behind the normalization, against the definitions that are there.
  unfoldable pub checked_add :
      ShardDefinition → Bool → List ShardDefinition → Result Text (Unit {0})
  unfolding validate_definition_set ensure_target_directory text_eq
  checked_add d create_dir ds =
      let set : Result Text (Unit {0}) =
        elim (validate_definition_set to_lowercase (ds ++ d ∷ [])) [
          | err e ↦ err e
          | ok fine ↦ ensure_target_directory folders d.path create_dir
        ] in
      if any (has_id d.id) ds
      then err (codes "Shard '" ++ (d.id ++ codes "' already exists"))
      else set

  unfoldable pub add :
      ShardDefinition → Bool → List ShardDefinition → Result Text (List ShardDefinition × ShardInfo)
  unfolding normalize_definition parse_definitions checked_add make_info
  add definition create_dir entries = elim (normalize_definition definition) [
    | err e ↦ err e
    | ok d ↦ elim (parse_definitions entries) [
      | err e ↦ err e
      | ok ds ↦ elim (checked_add d create_dir ds) [
        | err e ↦ err e
        | ok fine ↦ ok (entries ++ d ∷ [], make_info to_lowercase after d (ds ++ d ∷ []))
      ]
    ]
  ]

  -- The definition with its new name and path.
  pub updated : ShardDefinition → Option Text → Option Text → Result Text ShardDefinition
  unfolding normalize_name normalize_shard_path
  updated d name path = elim (renamed name d.name) [
    | err e ↦ err e
    | ok n ↦ elim (moved path d.path) [
      | err e ↦ err e
      | ok p ↦ ok (record { id = d.id; name = n; path = p })
    ]
  ]

  pub checked_update : ShardDefinition → Bool → Bool → List ShardDefinition → Result Text (Unit {0})
  unfolding validate_definition_set ensure_target_directory
  checked_update d needs_folder create_dir ds =
      elim (validate_definition_set to_lowercase (set_entry d ds)) [
        | err e ↦ err e
        | ok fine ↦
            if needs_folder then ensure_target_directory folders d.path create_dir else ok tt
      ]

  pub update :
      Text
      → Option Text
      → Option Text
      → Bool
      → List ShardDefinition
      → Result Text (List ShardDefinition × ShardInfo)
  unfolding parse_definitions find_id updated checked_update make_info
  update id name path create_dir entries =
      let changed : Result Text (List ShardDefinition × ShardInfo) =
        elim (parse_definitions entries) [
          | err e ↦ err e
          | ok ds ↦ elim (find_id id ds) [
            | none ↦ err (not_found id)
            | some old ↦ elim (updated old name path) [
              | err e ↦ err e
              | ok d ↦ elim (checked_update d (is_given path || create_dir) create_dir ds) [
                | err e ↦ err e
                | ok fine ↦
                    ok (set_entry d entries, make_info to_lowercase after d (set_entry d ds))
              ]
            ]
          ]
        ] in
      if is_given name || (is_given path || create_dir)
      then changed
      else err (codes "Shard update requires --name, --path, or --create-dir")

  -- `remove_entry` is the mapping's `remove`, which may reorder the other entries.
  pub remove :
      (Text → List ShardDefinition → List ShardDefinition)
      → Text
      → List ShardDefinition
      → Result Text (List ShardDefinition × ShardInfo)
  unfolding parse_definitions find_id make_info
  remove remove_entry id entries = elim (parse_definitions entries) [
    | err e ↦ err e
    | ok ds ↦ elim (find_id id ds) [
      | none ↦ err (not_found id)
      | some d ↦ ok (remove_entry id entries, make_info to_lowercase after d ds)
    ]
  ]

  -- The definition behind a new prefix, if it is at or beneath the old one.
  pub retargeted : Text → Text → ShardDefinition → Option ShardDefinition
  unfolding relative_to_scope
  retargeted old_prefix new_prefix d = elim (relative_to_scope d.path old_prefix) [
    | none ↦ none
    | some relative ↦ some (record d {
      path = if is_empty relative then new_prefix else new_prefix ++ (codes "/" ++ relative);
    })
  ]

  abbrev pub or_same : ShardDefinition → Option ShardDefinition → ShardDefinition
  or_same d none = d
  or_same d (some e) = e

  -- The definitions that are affected, in their new form.
  pub affected : Text → Text → List ShardDefinition → List ShardDefinition
  unfolding retargeted
  affected old_prefix new_prefix [] = []
  affected old_prefix new_prefix (d ∷ ds) =
      let rest = affected old_prefix new_prefix ds in
      elim (retargeted old_prefix new_prefix d) [ none ↦ rest | some e ↦ e ∷ rest ]

  -- The path of an affected entry is replaced.
  abbrev pub set_path : List ShardDefinition → ShardDefinition → ShardDefinition
  set_path changed entry = elim (find_id entry.id changed) [
    | none ↦ entry
    | some d ↦ record entry { path = d.path }
  ]

  pub checked_retarget :
      Text → Text → List ShardDefinition → List ShardDefinition → Result Text (Unit {0})
  unfolding validate_definition_set ensure_target_directory
  checked_retarget old_prefix new_prefix changed ds = elim changed [
    | [] ↦ err (codes "no Shards exist at or below '" ++ (old_prefix ++ codes "'"))
    | ◌∷◌ c cs ↦ elim (validate_definition_set to_lowercase ds) [
      | err e ↦ err e
      | ok fine ↦ ensure_target_directory folders new_prefix false
    ]
  ]

  -- The change behind the normalization of both prefixes.
  pub retarget_folders :
      Text → Text → List ShardDefinition → Result Text (List ShardDefinition × List ShardInfo)
  unfolding parse_definitions retargeted affected checked_retarget find_id make_info sort_by text_le
  retarget_folders old_prefix new_prefix entries = elim (parse_definitions entries) [
    | err e ↦ err e
    | ok ds ↦
        let changed = affected old_prefix new_prefix ds in
        let now = map (λ d. or_same d (retargeted old_prefix new_prefix d)) ds in
        elim (checked_retarget old_prefix new_prefix changed now) [
          | err e ↦ err e
          | ok fine ↦ ok (
            map (set_path changed) entries,
            sort_by (info_le to_lowercase after)
                (map (λ d. make_info to_lowercase after d now) changed),
          )
        ]
  ]

  pub retarget :
      Text → Text → List ShardDefinition → Result Text (List ShardDefinition × List ShardInfo)
  unfolding normalize_shard_path retarget_folders text_eq
  retarget old_prefix new_prefix entries = elim (normalize_shard_path old_prefix) [
    | err e ↦ err e
    | ok old ↦ elim (normalize_shard_path new_prefix) [
      | err e ↦ err e
      | ok new ↦
          let result = retarget_folders old new entries in
          if text_eq old new then err (codes "old and new Shard prefixes are identical") else result
    ]
  ]
