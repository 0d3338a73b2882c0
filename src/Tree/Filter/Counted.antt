-- ===== src/Tree/Filter/Counted.antt =====
-- The counts of a filtered tree.
use markdown_vdb.Base.{
  ◌+◌, true, false, List, [], ◌∷◌, ◌++◌, Option, none, some, Text, ◌≡◌, refl, Bool-cases, inl, inr,
  arith, length,
}
use markdown_vdb.Tree.{
  FileState, indexed, modified, new, deleted, Forest, nil, cons, FileTreeNode, Entry,
}
use markdown_vdb.Tree.Leaves.{leaf_of, leaves}
use markdown_vdb.Tree.Summary.{
  tally, is_indexed, is_modified, is_new, is_deleted, tally-append, Counts,
}
use markdown_vdb.Tree.Filter.{
  Tallies, count_state, count_forest, count_states, zero_tallies, summarize, files_of,
}

-- The tallies grew by those of these files.
record Grew (c : Tallies) (files : List Entry) (t : Tallies) : Type 0 where
  by_indexed : t.indexed_count ≡ c.indexed_count + tally is_indexed files
  by_modified : t.modified_count ≡ c.modified_count + tally is_modified files
  by_new : t.new_count ≡ c.new_count + tally is_new files
  by_deleted : t.deleted_count ≡ c.deleted_count + tally is_deleted files

count_state-Grew :
    (p : Text) (s : Option FileState) (c : Tallies) → Grew c (leaf_of p s) (count_state s c)
unfolding count_state tally
count_state-Grew p none c = omega arith
count_state-Grew p (some indexed) c = omega arith
count_state-Grew p (some modified) c = omega arith
count_state-Grew p (some new) c = omega arith
count_state-Grew p (some deleted) c = omega arith

Grew-append :
    (c d e : Tallies) (xs ys : List Entry) → Grew c xs d → Grew d ys e → Grew c (xs ++ ys) e
Grew-append c d e xs ys g h = omega (
  arith,
  tally-append is_indexed xs ys,
  tally-append is_modified xs ys,
  tally-append is_new xs ys,
  tally-append is_deleted xs ys,
)

count_forest-Grew : (f : Forest) (c : Tallies) → Grew c (leaves f) (count_forest f c)
unfolding count_forest tally leaves
count_forest-Grew nil c = omega arith
count_forest-Grew (cons n p true s children rest) c =
    let below = count_forest children c in
    Grew-append c below (count_forest rest below) (leaves children) (leaves rest)
      (count_forest-Grew children c) (count_forest-Grew rest below)
count_forest-Grew (cons n p false s children rest) c =
    let here = count_state s c in
    Grew-append c here (count_forest rest here) (leaf_of p s) (leaves rest) (count_state-Grew p s c)
      (count_forest-Grew rest here)

tally_sum :
    (files : List Entry)
    → tally is_indexed files
        + (tally is_modified files + (tally is_new files + tally is_deleted files))
      ≡ length files
unfolding tally
tally_sum [] = refl
tally_sum ((p, indexed) ∷ es) = omega (arith, tally_sum es)
tally_sum ((p, modified) ∷ es) = omega (arith, tally_sum es)
tally_sum ((p, new) ∷ es) = omega (arith, tally_sum es)
tally_sum ((p, deleted) ∷ es) = omega (arith, tally_sum es)

count_states-Grew :
    (node : FileTreeNode) (c : Tallies) → Grew c (files_of node) (count_states node c)
unfolding count_states
count_states-Grew node c = elim (Bool-cases node.is_dir) [
  | inl dir ↦ rw (dir, count_states) (count_forest-Grew node.children c)
  | inr file ↦ rw (file, count_states) (count_state-Grew node.path node.state c)
]

pub summarize-Counts :
    (node : FileTreeNode) → Counts (summarize node (count_states node zero_tallies)) (files_of node)
summarize-Counts node =
    let g = count_states-Grew node zero_tallies in omega (arith, tally_sum (files_of node))
