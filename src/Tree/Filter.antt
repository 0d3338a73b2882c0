-- ===== src/Tree/Filter.antt =====
-- `filter_subtree` and `filter_file_tree` of src/tree.rs.
pub mod Counted
pub mod Selected
use package.markdown_vdb.Base.{
  ℕ, ◌+◌, Bool, true, false, ◌||◌, ◌&&◌, List, [], ◌∷◌, ◌++◌, if◌then◌else◌, Option, none, some,
  Text, text_eq, text_eq_iff, ◌≡◌, refl, sym, ◌∙◌, ap, subst, Bool-cases, Option-cases, inl, inr,
  ◌⊎◌, arith, length, ◌∈◌, ◌==◌, ◌≢◌, All, All-append, mem-append_left, mem-append_right,
}
use package.markdown_vdb.Base.Strings.{codes, trim_end_matches, replace_char, drop_while}
use package.markdown_vdb.PathUtil.{normalize_path_input, path_is_in_scope}
use package.markdown_vdb.Tree.{
  FileState, indexed, modified, new, deleted, Forest, nil, cons, FileTreeNode, FileTree, Entry,
}
use package.markdown_vdb.Tree.Leaves.{leaf_of, leaves}
use package.markdown_vdb.Tree.Summary.{
  tally, is_indexed, is_modified, is_new, is_deleted, any_state, tally-append, tally_all, Counts,
}

-- The first two lines of `filter_subtree`.
pub wanted : Text → Text
unfolding normalize_path_input trim_end_matches
wanted prefix = trim_end_matches b'/' (normalize_path_input prefix)

-- The test of the node itself.
pub is_wanted : Text → Text → Bool
unfolding text_eq
is_wanted path prefix =
    text_eq path prefix || (text_eq path (codes ".") && text_eq prefix (codes "."))

-- The loop over the children; the recursive call of `filter_subtree` is its test of the child and
-- this loop over the child's children, with the prefix normalized again.
pub filter_children : Text → Forest → Option FileTreeNode
unfolding wanted is_wanted path_is_in_scope
filter_children prefix nil = none
filter_children prefix (cons n p d s children rest) =
    let child : FileTreeNode = record {
      name = n;
      path = p;
      is_dir = d;
      state = s;
      children = children;
    } in
    let deeper = filter_children (wanted prefix) children in
    let others = filter_children prefix rest in
    let inside = if is_wanted p (wanted prefix) then some child else deeper in
    let tested =
      (if text_eq p prefix
        then some child
        else if path_is_in_scope prefix p
        then inside
        else others) in
    if d then tested else others

unfoldable pub filter_subtree : FileTreeNode → Text → Option FileTreeNode
unfolding filter_children
filter_subtree tree prefix =
    let found = filter_children (wanted prefix) tree.children in
    if is_wanted tree.path (wanted prefix) then some tree else found

-- `counts` of `count_states`.
pub record Tallies : Type 0 where
  pub indexed_count : ℕ
  pub modified_count : ℕ
  pub new_count : ℕ
  pub deleted_count : ℕ

pub count_state : Option FileState → Tallies → Tallies
count_state none c = c
count_state (some indexed) c = record c { indexed_count = c.indexed_count + 1 }
count_state (some modified) c = record c { modified_count = c.modified_count + 1 }
count_state (some new) c = record c { new_count = c.new_count + 1 }
count_state (some deleted) c = record c { deleted_count = c.deleted_count + 1 }

-- `count_states` for the nodes of a forest, one after the other.
pub count_forest : Forest → Tallies → Tallies
unfolding count_state
count_forest nil c = c
count_forest (cons n p d s children rest) c =
    let below = count_forest children c in count_forest rest (if d then below else count_state s c)

pub count_states : FileTreeNode → Tallies → Tallies
unfolding count_forest
count_states node c = if node.is_dir then count_forest node.children c else count_state node.state c

abbrev pub zero_tallies : Tallies
zero_tallies = record { indexed_count = 0; modified_count = 0; new_count = 0; deleted_count = 0 }

abbrev pub summarize : FileTreeNode → Tallies → FileTree
summarize root c = record {
  root = root;
  total_files = c.indexed_count + (c.modified_count + (c.new_count + c.deleted_count));
  indexed_count = c.indexed_count;
  modified_count = c.modified_count;
  new_count = c.new_count;
  deleted_count = c.deleted_count;
}

unfoldable pub filter_file_tree : FileTree → Text → Option FileTree
unfolding filter_subtree count_states
filter_file_tree tree prefix = elim (filter_subtree tree.root prefix) [
  | none ↦ none
  | some root ↦ some (summarize root (count_states root zero_tallies))
]

-- The files of a node.
abbrev pub files_of : FileTreeNode → List Entry
files_of node = if node.is_dir then leaves node.children else leaf_of node.path node.state
