-- ===== src/Tree/Leaves.antt =====
-- The files of a tree are the entries that it was built from.
use mathlib.Core.List.Perm
use mathlib.Core.List.{Perm, perm_middle}
use markdown_vdb.Base.{
  Bool, true, false, List, [], ◌∷◌, ◌++◌, if◌then◌else◌, Option, none, some, Text, text_eq, ◌≢◌,
  refl, Bool-cases, inl, inr, append-nil,
}
use markdown_vdb.Base.Strings.{split, codes, join}
use markdown_vdb.Base.Strings.Pieces.{split-ne-nil}
use markdown_vdb.Tree.{
  FileState, Forest, nil, cons, Entry, push_leaf, enter_dir, place, place_all, insert_child,
  sort_children, child_le, build_tree_from_entries,
}

-- The path and state of a node, if it has a state.
abbrev pub leaf_of : Text → Option FileState → List Entry
leaf_of p none = []
leaf_of p (some s) = (p, s) ∷ []

-- The files of a forest.
unfoldable pub leaves : Forest → List Entry
leaves nil = []
leaves (cons n p d s children rest) = (if d then leaves children else leaf_of p s) ++ leaves rest

perm_push :
    (a : Entry) (xs ys : List Entry) {zs : List Entry}
    → Perm ys (a ∷ zs)
    → Perm (xs ++ ys) (a ∷ (xs ++ zs))
perm_push a xs ys {zs} h = Perm.trans (Perm.append_left xs h) (perm_middle xs zs)

leaves-push_leaf :
    (part : Text) (e : Entry) (f : Forest) → Perm (leaves (push_leaf part e f)) (e ∷ leaves f)
unfolding push_leaf leaves
leaves-push_leaf part e nil = Perm.refl (e ∷ [])
leaves-push_leaf part e (cons n p d s children rest) =
    perm_push e (if d then leaves children else leaf_of p s) (leaves (push_leaf part e rest))
      (leaves-push_leaf part e rest)

leaves-enter_dir :
    (part dir_path : Text) (inside : Forest → Forest) (e : Entry)
    → ((f : Forest) → Perm (leaves (inside f)) (e ∷ leaves f))
    → (f : Forest) → Perm (leaves (enter_dir part dir_path inside f)) (e ∷ leaves f)
unfolding enter_dir leaves
leaves-enter_dir part dir_path inside e h nil = rw append-nil (h nil)
leaves-enter_dir part dir_path inside e h (cons n p true s children rest) =
    elim (Bool-cases (text_eq n part)) [
      | inl same ↦ rw same (Perm.append_right (leaves rest) (h children))
      | inr other ↦ rw other (
          perm_push e (leaves children) (leaves (enter_dir part dir_path inside rest))
            (leaves-enter_dir part dir_path inside e h rest))
    ]
leaves-enter_dir part dir_path inside e h (cons n p false s children rest) =
    perm_push e (leaf_of p s) (leaves (enter_dir part dir_path inside rest))
      (leaves-enter_dir part dir_path inside e h rest)

leaves-place :
    (before parts : List Text) (e : Entry) (f : Forest)
    → parts ≢ []
    → Perm (leaves (place before parts e f)) (e ∷ leaves f)
unfolding place
leaves-place before [] e f h = absurd (h refl)
leaves-place before (part ∷ []) e f h = leaves-push_leaf part e f
leaves-place before (part ∷ next ∷ parts) e f h =
    leaves-enter_dir part (join (codes "/") (before ++ part ∷ []))
      (place (before ++ part ∷ []) (next ∷ parts) e) e
      (λ g. leaves-place (before ++ part ∷ []) (next ∷ parts) e g (λ k. cc)) f

leaves-place_all : (es : List Entry) (f : Forest) → Perm (leaves (place_all es f)) (es ++ leaves f)
unfolding place_all
leaves-place_all [] f = Perm.refl (leaves f)
leaves-place_all (e ∷ es) f = Perm.trans (leaves-place_all es (place [] (split b'/' e.0) e f)) (
    Perm.trans (Perm.append_left es (leaves-place [] (split b'/' e.0) e f (split-ne-nil b'/' e.0)))
      (perm_middle es (leaves f)))

leaves-insert_child :
    (n p : Text) (d : Bool) (s : Option FileState) (children f : Forest)
    → Perm (leaves (insert_child n p d s children f)) (leaves (cons n p d s children f))
unfolding insert_child leaves
leaves-insert_child n p d s children nil = Perm.refl (leaves (cons n p d s children nil))
leaves-insert_child n p d s children (cons n' p' d' s' children' rest) =
    elim (Bool-cases (child_le d n d' n')) [
      | inl le ↦
          rw le (Perm.refl (leaves (cons n p d s children (cons n' p' d' s' children' rest))))
      | inr gt ↦ rw gt (
          Perm.trans
            (Perm.append_left (if d' then leaves children' else leaf_of p' s')
              (leaves-insert_child n p d s children rest))
            (swap_blocks (if d' then leaves children' else leaf_of p' s')
              (if d then leaves children else leaf_of p s) (leaves rest)))
    ]
  where
    swap_blocks : (xs ys zs : List Entry) → Perm (xs ++ (ys ++ zs)) (ys ++ (xs ++ zs))
    swap_blocks xs [] zs = Perm.refl (xs ++ zs)
    swap_blocks xs (y ∷ ys) zs =
        Perm.trans (perm_middle xs (ys ++ zs)) (Perm.cons y (swap_blocks xs ys zs))

leaves-sort_children : (f : Forest) → Perm (leaves (sort_children f)) (leaves f)
unfolding sort_children leaves
leaves-sort_children nil = Perm.refl []
leaves-sort_children (cons n p true s children rest) =
    Perm.trans (leaves-insert_child n p true s (sort_children children) (sort_children rest))
      (Perm.append (leaves-sort_children children) (leaves-sort_children rest))
leaves-sort_children (cons n p false s children rest) =
    Perm.trans (leaves-insert_child n p false s children (sort_children rest))
      (Perm.append_left (leaf_of p s) (leaves-sort_children rest))

-- The files of the built tree are the entries, each as often as it was given, with its path and
-- state.
pub build_tree_from_entries-Perm :
    (entries : List Entry) → Perm (leaves (build_tree_from_entries entries).children) entries
unfolding build_tree_from_entries leaves
build_tree_from_entries-Perm entries =
    Perm.trans (leaves-sort_children (place_all entries nil))
      (rw append-nil at (leaves-place_all entries nil))
