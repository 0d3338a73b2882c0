-- ===== src/Tree/Tests.antt =====
-- A small collection: two files in the index, one of them changed, one file new and one gone.
use mathlib.Core.List.{Perm}
use markdown_vdb.Base.{
  ℕ, List, [], ◌∷◌, map, ◌≡◌, refl, ◌⊎◌, none, some, Option, Text, if◌then◌else◌, text_eq,
}
use markdown_vdb.Base.Strings.{codes, join}
use markdown_vdb.Base.Result.{Result, ok, err}
use markdown_vdb.PathUtil.{to_slash, path_is_in_scope}
use markdown_vdb.Tree.{
  indexed, modified, new, deleted, FileTree, Entry, collect_set, build_tree_from_entries,
  build_file_tree_from_hashes,
}
use markdown_vdb.Tree.Leaves.{leaves, build_tree_from_entries-Perm}
use markdown_vdb.Tree.States.{IsTreeOf, IsUnreadable, build_file_tree_from_hashes-IsTreeOf}
use markdown_vdb.Tree.Filter.{filter_file_tree}

abbrev entries : List Entry
entries =
    (codes "b.md", indexed)
    ∷ (codes "a/z.md", new)
    ∷ (codes "a/c/x.md", deleted)
    ∷ (codes "a/y.md", modified)
    ∷ []

sorted_leaves :
    leaves (build_tree_from_entries entries).children
    ≡ (codes "a/c/x.md", deleted)
      ∷ (codes "a/y.md", modified)
      ∷ (codes "a/z.md", new)
      ∷ (codes "b.md", indexed)
      ∷ []
unfolding build_tree_from_entries leaves text_eq
sorted_leaves = refl

-- The content of a file is its path; `locked.md` cannot be read.
abbrev read : Text → Result ℕ Text
read p = if text_eq p (codes "locked.md") then err 13 else ok p

abbrev hash : Text → Text
hash content = b'#' ∷ content

abbrev hashes : List (Text × Text)
hashes =
    (codes "b.md", codes "#b.md")
    ∷ (codes "a/y.md", codes "old")
    ∷ (codes "a/c/x.md", codes "#x")
    ∷ []

abbrev disk_files : List Text
disk_files = codes "b.md" ∷ codes "a\\z.md" ∷ codes "a/y.md" ∷ codes "b.md" ∷ []

abbrev io_error : Text → ℕ → Text × ℕ
io_error p e = (p, e)

leaves_of : {E : Type 0} → Result E FileTree → List Entry
leaves_of (ok t) = leaves t.root.children
leaves_of (err e) = []

states :
    leaves_of (build_file_tree_from_hashes read hash io_error (ok disk_files) hashes)
    ≡ (codes "a/c/x.md", deleted)
      ∷ (codes "a/y.md", modified)
      ∷ (codes "a/z.md", new)
      ∷ (codes "b.md", indexed)
      ∷ []
unfolding leaves_of leaves build_file_tree_from_hashes text_eq
states = refl

build_tree_from_entries-Perm_example :
    Perm (leaves (build_tree_from_entries entries).children) entries
build_tree_from_entries-Perm_example = build_tree_from_entries-Perm entries

build_file_tree_from_hashes-IsTreeOf_example :
    ((t : FileTree) × (build_file_tree_from_hashes read hash io_error (ok disk_files) hashes ≡ ok t)
      × IsTreeOf read hash io_error hashes (collect_set (map to_slash disk_files)) t)
    ⊎ IsUnreadable read hash io_error hashes
        (collect_set (map to_slash disk_files))
        (build_file_tree_from_hashes read hash io_error (ok disk_files) hashes)
build_file_tree_from_hashes-IsTreeOf_example =
    build_file_tree_from_hashes-IsTreeOf read hash io_error hashes disk_files

abbrev tree : FileTree
tree = record {
  root = build_tree_from_entries entries;
  total_files = 4;
  indexed_count = 1;
  modified_count = 1;
  new_count = 1;
  deleted_count = 1;
}

counts_of : Option FileTree → List ℕ
counts_of none = []
counts_of (some t) =
    t.total_files ∷ t.indexed_count ∷ t.modified_count ∷ t.new_count ∷ t.deleted_count ∷ []

below_a : counts_of (filter_file_tree tree (codes "a\\")) ≡ 3 ∷ 0 ∷ 1 ∷ 1 ∷ 1 ∷ []
unfolding counts_of filter_file_tree build_tree_from_entries text_eq join
below_a = refl

below_c : counts_of (filter_file_tree tree (codes "a/c")) ≡ 1 ∷ 0 ∷ 0 ∷ 0 ∷ 1 ∷ []
unfolding counts_of filter_file_tree build_tree_from_entries text_eq path_is_in_scope join
below_c = refl
