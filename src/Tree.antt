-- ===== src/Tree.antt =====
-- src/tree.rs: the tree of the files on disk and in the index, with their state.
pub mod Leaves
pub mod Summary
pub mod States
pub mod Filter
mod Tests
use package.markdown_vdb.Base.{
  ℕ, ◌+◌, Bool, true, false, ◌||◌, ◌&&◌, not, List, [], ◌∷◌, ◌++◌, map, if◌then◌else◌, Option, none,
  some, Text, text_key, text_eq, length,
}
use package.markdown_vdb.Base.Strings.{codes, split, join, trim_end_matches}
use package.markdown_vdb.Base.Sort.{text_le}
use package.markdown_vdb.Base.Map.{lookup, contains}
use package.markdown_vdb.Base.Result.{Result, ok, err}
use package.markdown_vdb.PathUtil.{to_slash, normalize_path_input, path_is_in_scope}

pub data FileState : Type 0 where
  indexed modified new deleted : FileState

-- A `Vec<FileTreeNode>`: the name, path, `is_dir`, state and children of the first, and the rest.
pub data Forest : Type 0 where
  nil : Forest
  cons : Text → Text → Bool → Option FileState → Forest → Forest → Forest

pub record FileTreeNode : Type 0 where
  pub name : Text
  pub path : Text
  pub is_dir : Bool
  pub state : Option FileState
  pub children : Forest

pub record FileTree : Type 0 where
  pub root : FileTreeNode
  pub total_files : ℕ
  pub indexed_count : ℕ
  pub modified_count : ℕ
  pub new_count : ℕ
  pub deleted_count : ℕ

abbrev pub Entry : Type 0
Entry = Text × FileState

-- `current.children.push` of a leaf.
pub push_leaf : Text → Entry → Forest → Forest
push_leaf part e nil = cons part e.0 false (some e.1) nil nil
push_leaf part e (cons n p d s children rest) = cons n p d s children (push_leaf part e rest)

-- The first directory with this name, or a new one behind the others, goes through `inside`.
pub enter_dir : Text → Text → (Forest → Forest) → Forest → Forest
enter_dir part dir_path inside nil = cons part dir_path true none (inside nil) nil
enter_dir part dir_path inside (cons n p d s children rest) =
    if d && text_eq n part
    then cons n p d s (inside children) rest
    else cons n p d s children (enter_dir part dir_path inside rest)

-- The loop over the parts of a path; `before` are the parts already passed.
pub place : List Text → List Text → Entry → Forest → Forest
unfolding push_leaf enter_dir
place before [] e f = f
place before (part ∷ []) e f = push_leaf part e f
place before (part ∷ next ∷ parts) e f =
    let passed = before ++ part ∷ [] in
    enter_dir part (join (codes "/") passed) (place passed (next ∷ parts) e) f

pub place_all : List Entry → Forest → Forest
unfolding place split
place_all [] f = f
place_all (e ∷ es) f = place_all es (place [] (split b'/' e.0) e f)

-- `sort_by`'s comparison of two children, by `is_dir` and name, is not `Greater`.
pub child_le : Bool → Text → Bool → Text → Bool
child_le true a false b = true
child_le false a true b = false
child_le true a true b = text_le a b
child_le false a false b = text_le a b

pub insert_child : Text → Text → Bool → Option FileState → Forest → Forest → Forest
unfolding child_le text_le
insert_child n p d s children nil = cons n p d s children nil
insert_child n p d s children (cons n' p' d' s' children' rest) =
    if child_le d n d' n'
    then cons n p d s children (cons n' p' d' s' children' rest)
    else cons n' p' d' s' children' (insert_child n p d s children rest)

-- A stable sort of the children, and of the children of each directory. The comparison does not
-- look at children, so these can be sorted first.
pub sort_children : Forest → Forest
unfolding insert_child
sort_children nil = nil
sort_children (cons n p d s children rest) =
    let below = sort_children children in
    insert_child n p d s (if d then below else children) (sort_children rest)

unfoldable pub build_tree_from_entries : List Entry → FileTreeNode
unfolding place_all sort_children
build_tree_from_entries entries = record {
  name = codes ".";
  path = codes ".";
  is_dir = true;
  state = none;
  children = sort_children (place_all entries nil);
}

-- The entries and the four counters.
pub record Classified : Type 0 where
  pub entries : List Entry
  pub indexed_count : ℕ
  pub modified_count : ℕ
  pub new_count : ℕ
  pub deleted_count : ℕ

-- `entries.push` and the state's counter.
pub classify : Text → FileState → Classified → Classified
classify path indexed c = record c {
  entries = c.entries ++ (path, indexed) ∷ [];
  indexed_count = c.indexed_count + 1;
}
classify path modified c = record c {
  entries = c.entries ++ (path, modified) ∷ [];
  modified_count = c.modified_count + 1;
}
classify path new c = record c {
  entries = c.entries ++ (path, new) ∷ [];
  new_count = c.new_count + 1;
}
classify path deleted c = record c {
  entries = c.entries ++ (path, deleted) ∷ [];
  deleted_count = c.deleted_count + 1;
}

-- Collecting into a `HashSet`.
pub collect_set : List Text → List Text
unfolding contains
collect_set [] = []
collect_set (p ∷ ps) = let rest = collect_set ps in if contains p rest then rest else p ∷ rest

-- The loop over the index's paths.
pub classify_deleted : List Text → List Text → Classified → Classified
unfolding classify contains
classify_deleted disk_paths [] c = c
classify_deleted disk_paths (p ∷ ps) c =
    classify_deleted disk_paths ps (if not (contains p disk_paths) then classify p deleted c else c)

abbrev pub empty_classified : Classified
empty_classified = record {
  entries = [];
  indexed_count = 0;
  modified_count = 0;
  new_count = 0;
  deleted_count = 0;
}

abbrev pub tree_of : Classified → FileTree
tree_of c = record {
  root = build_tree_from_entries c.entries;
  total_files = length c.entries;
  indexed_count = c.indexed_count;
  modified_count = c.modified_count;
  new_count = c.new_count;
  deleted_count = c.deleted_count;
}

-- The file system below the root, the content hash, and the error of a file that cannot be read.
module _ {E I : Type 0} (read_to_string : Text → Result I Text) (compute_content_hash : Text → Text)
    (io_error : Text → I → E) where
  -- The state of a file on disk.
  pub disk_state : List (Text × Text) → Text → Result E FileState
  unfolding lookup text_eq
  disk_state indexed_hashes rel_path = elim (lookup rel_path indexed_hashes) [
    | none ↦ ok new
    | some expected_hash ↦ elim (read_to_string rel_path) [
      | err e ↦ err (io_error rel_path e)
      | ok content ↦
          ok (if text_eq (compute_content_hash content) expected_hash then indexed else modified)
    ]
  ]

  -- The loop over the paths on disk.
  pub classify_disk : List (Text × Text) → List Text → Classified → Result E Classified
  unfolding disk_state classify
  classify_disk indexed_hashes [] c = ok c
  classify_disk indexed_hashes (p ∷ ps) c = elim (disk_state indexed_hashes p) [
    | err e ↦ err e
    | ok s ↦ classify_disk indexed_hashes ps (classify p s c)
  ]

  -- `discovered` is the answer of the file discovery.
  unfoldable pub build_file_tree_from_hashes :
      Result E (List Text) → List (Text × Text) → Result E FileTree
  unfolding classify_disk classify_deleted collect_set build_tree_from_entries to_slash
  build_file_tree_from_hashes (err e) indexed_hashes = err e
  build_file_tree_from_hashes (ok disk_files) indexed_hashes =
      let disk_paths = collect_set (map to_slash disk_files) in
      elim (classify_disk indexed_hashes disk_paths empty_classified) [
        | err e ↦ err e
        | ok c ↦ ok (tree_of (classify_deleted disk_paths (map (λ h. h.0) indexed_hashes) c))
      ]
