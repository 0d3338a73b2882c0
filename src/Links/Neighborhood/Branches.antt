-- ===== src/Links/Neighborhood/Branches.antt =====
-- The branches of a neighbourhood are the simple paths of links.
use mathlib.Core.Logic.{◌↔◌}
use markdown_vdb.Base.{
  ℕ, zero, suc, ◌≤◌, true, false, List, [], ◌∷◌, ◌≡◌, refl, ap, ◌∙◌, sym, inl, inr, ◌⊎◌, arith,
  Text, text_key, text_eq_iff, Bool-cases, ◌∈◌,
}
use markdown_vdb.Base.Map.{contains}
use markdown_vdb.Links.{LinkMap}
use markdown_vdb.Links.Query.{link_state, compute_backlinks}
use markdown_vdb.Links.Neighborhood.{
  Nodes, nil, cons, unvisit, build_nodes, build_tree, targets_of, sources_of, build_outgoing_tree,
  build_incoming_tree, max_depth, neighborhood, clamp_depth,
}

-- The nodes have a branch with these paths, from the top.
abbrev pub HasBranch : Nodes → List Text → Type 0
HasBranch nodes [] = Unit
HasBranch nil (x ∷ xs) = ⊥
HasBranch (cons p s children rest) (x ∷ xs) =
    (p ≡ x) × HasBranch children xs ⊎ HasBranch rest (x ∷ xs)

-- Every node says of its path whether it is known.
abbrev pub StatesAreRight : List Text → Nodes → Type 0
StatesAreRight known nil = Unit
StatesAreRight known (cons p s children rest) =
    (s ≡ link_state known p) × StatesAreRight known children × StatesAreRight known rest

unvisit_absent :
    (p : Text) (visited : List Text) → contains p visited ≡ false → unvisit p visited ≡ visited
unfolding unvisit contains
unvisit_absent p [] h = refl
unvisit_absent p (v ∷ visited) h = ground (arith, unvisit_absent p visited)

unvisit_cons :
    (p : Text) (visited : List Text)
    → contains p visited ≡ false
    → unvisit p (p ∷ visited) ≡ visited
unfolding unvisit
unvisit_cons p visited h = ground (arith, text_eq_iff p p, unvisit_absent p visited h)

clash :
    (x p : Text) (visited : List Text)
    → x ≡ p
    → contains p visited ≡ true
    → contains x visited ≡ false
    → ⊥
clash x p visited e old fresh = cc

module _ (next : Text → List Text) (known : List Text) where
  -- A path of links from `file`, of at most `depth` steps, that meets no visited path and no path
  -- twice.
  abbrev pub IsSimplePath : List Text → ℕ → Text → List Text → Type 0
  IsSimplePath visited depth file [] = Unit
  IsSimplePath visited zero file (x ∷ xs) = ⊥
  IsSimplePath visited (suc depth) file (x ∷ xs) =
      (x ∈ next file) × (contains x visited ≡ false) × IsSimplePath (x ∷ visited) depth x xs

  -- The subtrees of one level less are right, and leave the set as it was.
  abbrev IsRight : ℕ → Type 0
  IsRight depth =
      (file : Text) (visited : List Text)
      → let out = build_tree next known depth file visited in
        (out.1 ≡ visited)
        × ((path : List Text) → HasBranch out.0 path ↔ IsSimplePath visited depth file path)
        × StatesAreRight known out.0

  abbrev NodesAreRight : ℕ → List Text → List Text → Nodes × List Text → Type 0
  NodesAreRight depth ps visited out =
      (out.1 ≡ visited)
      × ((x : Text) (xs : List Text)
          → HasBranch out.0 (x ∷ xs)
            ↔ ((x ∈ ps) × (contains x visited ≡ false) × IsSimplePath (x ∷ visited) depth x xs))
      × StatesAreRight known out.0

  build_nodes-NodesAreRight :
      (depth : ℕ)
      → IsRight depth
      → (ps visited : List Text)
      → NodesAreRight depth ps visited (build_nodes known (build_tree next known depth) ps visited)
  unfolding build_nodes
  build_nodes-NodesAreRight depth right [] visited =
      (refl, λ x xs. (λ h. absurd h, λ h. absurd h.0), tt)
  build_nodes-NodesAreRight depth right (p ∷ ps) visited = elim (Bool-cases (contains p visited)) [
    | inl old ↦
        let (kept, branches, states) = build_nodes-NodesAreRight depth right ps visited in
        rw old (
          kept,
          λ x xs. (
            λ h. let (m, fresh, path) = (branches x xs).0 h in (inr m, fresh, path),
            λ (m, fresh, path). elim m [
              | inl e ↦ absurd (clash x p visited e old fresh)
              | inr m' ↦ (branches x xs).1 (m', fresh, path)
            ],
          ),
          states,
        )
    | inr new ↦
        let (kept, branches, states) = build_nodes-NodesAreRight depth right ps visited in
        let (left, below, below_states) = right p (p ∷ visited) in
        let restored : unvisit p (build_tree next known depth p (p ∷ visited)).1 ≡ visited =
          ap (unvisit p) left ∙ unvisit_cons p visited new in
        rw (new, restored)
          (
            kept,
            λ x xs. (
              λ h. elim h [
                | inl (e, b) ↦ (inl (sym e), rw (← e) new, rw (← e) ((below xs).0 b))
                | inr b ↦ let (m, fresh, path) = (branches x xs).0 b in (inr m, fresh, path)
              ],
              λ (m, fresh, path). elim m [
                | inl e ↦ inl (sym e, (below xs).1 (rw e at path))
                | inr m' ↦ inr ((branches x xs).1 (m', fresh, path))
              ],
            ),
            (refl, below_states, states),
          )
  ]

  build_tree_zero : IsRight zero
  unfolding build_tree
  build_tree_zero file visited = (refl, no_branch, tt)
    where
      no_branch : (path : List Text) → HasBranch nil path ↔ IsSimplePath visited zero file path
      no_branch [] = (λ h. tt, λ h. tt)
      no_branch (x ∷ xs) = (λ h. h, λ h. h)

  build_tree_suc : (depth : ℕ) → IsRight depth → IsRight (suc depth)
  unfolding build_tree
  build_tree_suc depth right file visited = (nodes.0, all, nodes.2)
    where
      out : Nodes × List Text
      out = build_nodes known (build_tree next known depth) (next file) visited

      nodes : NodesAreRight depth (next file) visited out
      nodes = build_nodes-NodesAreRight depth right (next file) visited

      all : (path : List Text) → HasBranch out.0 path ↔ IsSimplePath visited (suc depth) file path
      all [] = (λ h. tt, λ h. tt)
      all (x ∷ xs) = nodes.1 x xs

  pub build_tree-IsRight : (depth : ℕ) → IsRight depth
  build_tree-IsRight zero = build_tree_zero
  build_tree-IsRight (suc depth) = build_tree_suc depth (build_tree-IsRight depth)

  build_nodes-depth :
      (depth : ℕ)
      → ((file : Text) (visited : List Text)
          → max_depth (build_tree next known depth file visited).0 ≤ depth)
      → (ps visited : List Text)
      → max_depth (build_nodes known (build_tree next known depth) ps visited).0 ≤ suc depth
  unfolding build_nodes max_depth
  build_nodes-depth depth h [] visited = omega arith
  build_nodes-depth depth h (p ∷ ps) visited = elim (Bool-cases (contains p visited)) [
    | inl old ↦ rw old (build_nodes-depth depth h ps visited)
    | inr new ↦ rw new (
        omega (
          arith,
          h p (p ∷ visited),
          build_nodes-depth depth h ps (unvisit p (build_tree next known depth p (p ∷ visited)).1),
        ))
  ]

  pub max_depth-build_tree :
      (depth : ℕ) (file : Text) (visited : List Text)
      → max_depth (build_tree next known depth file visited).0 ≤ depth
  unfolding build_tree
  max_depth-build_tree zero file visited = unfold max_depth in omega arith
  max_depth-build_tree (suc depth) file visited =
      build_nodes-depth depth (max_depth-build_tree depth) (next file) visited

-- The outgoing and incoming trees of a neighbourhood have as branches exactly the paths of forward
-- links, and of backlinks, that start at a link of the file, do not meet the file or a path twice,
-- and have at most as many steps as the depth, held between 1 and 3; every node's state says
-- whether its path is known; and the reported depths are at most 3.
pub neighborhood-branches :
    (forward : LinkMap) (known : List Text) (file : Text) (depth : ℕ)
    → let out = neighborhood forward known file depth in
      ((path : List Text)
        → (HasBranch out.outgoing path
            ↔ IsSimplePath (targets_of forward) known (file ∷ []) (clamp_depth depth) file path)
          × (HasBranch out.incoming path
              ↔ IsSimplePath
                  (sources_of (compute_backlinks forward))
                  known
                  (file ∷ [])
                  (clamp_depth depth)
                  file
                  path))
      × StatesAreRight known out.outgoing
      × StatesAreRight known out.incoming
      × (out.outgoing_depth_count ≤ 3)
      × (out.incoming_depth_count ≤ 3)
unfolding neighborhood build_outgoing_tree build_incoming_tree
neighborhood-branches forward known file depth =
    let d = clamp_depth depth in
    let a = build_tree-IsRight (targets_of forward) known d file (file ∷ []) in
    let b = build_tree-IsRight (sources_of (compute_backlinks forward)) known d file (file ∷ []) in
    (
      λ path. (a.1 path, b.1 path),
      a.2,
      b.2,
      omega (arith, max_depth-build_tree (targets_of forward) known d file (file ∷ [])),
      omega (
        arith,
        max_depth-build_tree (sources_of (compute_backlinks forward)) known d file (file ∷ []),
      ),
    )
