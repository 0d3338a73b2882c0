-- ===== src/Tree/Filter/Selected.antt =====
-- What the filter of a tree selects.
use markdown_vdb.Base.{true, [], ◌∷◌, Text, ◌≡◌, refl, ◌⊎◌, arith, ◌∈◌, ◌≢◌, All}
use markdown_vdb.Base.Strings.{replace_char}
use markdown_vdb.PathUtil.{normalize_path_input}
use markdown_vdb.Tree.{Forest, nil, cons, FileTreeNode, Entry}
use markdown_vdb.Tree.Leaves.{leaves}
use markdown_vdb.Tree.Filter.{is_wanted, files_of}

normalize_idem : (s : Text) → normalize_path_input (normalize_path_input s) ≡ normalize_path_input s
unfolding normalize_path_input replace_char
normalize_idem [] = refl
normalize_idem (c ∷ s) = ground (arith, normalize_idem s)

-- No character is left to normalize.
abbrev IsNormal : Text → Type 0
IsNormal = All (λ c. c ≢ b'\\')

-- The node stands in the forest, with its name, path, state and all its children.
abbrev pub IsNodeOf : FileTreeNode → Forest → Type 0
IsNodeOf t nil = ⊥
IsNodeOf t (cons n p d s children rest) =
    (t ≡ record { name = n; path = p; is_dir = d; state = s; children = children })
    ⊎ IsNodeOf t children
    ⊎ IsNodeOf t rest

-- The node stands in the forest, has the wanted path, is a directory, and has its files in the
-- forest.
abbrev IsSelected : Text → Forest → FileTreeNode → Type 0
IsSelected prefix f t =
    IsNodeOf t f
    × (is_wanted t.path prefix ≡ true)
    × (t.is_dir ≡ true)
    × ((e : Entry) → e ∈ files_of t → e ∈ leaves f)
