-- ===== src/Links/Neighborhood.antt =====
-- `neighborhood` of src/links.rs: the trees of links around a file. The set of files on the
-- current branch is passed in and out, as the program changes it in place.
pub mod Branches
use package.markdown_vdb.Base.{
  ℕ, zero, suc, ◌+◌, min, max, Bool, true, false, not, List, [], ◌∷◌, map, if◌then◌else◌, Text,
  text_key, text_eq, filter,
}
use package.markdown_vdb.Base.Map.{lookup, contains}
use package.markdown_vdb.Links.{LinkEntry, LinkMap, LinkState}
use package.markdown_vdb.Links.Query.{or_default, link_state, compute_backlinks}

-- A list of `NeighborhoodNode`s: the path, state and children of the first, and the others.
pub data Nodes : Type 0 where
  nil : Nodes
  cons : Text → LinkState → Nodes → Nodes → Nodes

-- `HashSet::remove`.
pub unvisit : Text → List Text → List Text
unvisit path = filter (λ p. not (text_eq p path))

-- The body of the loop for a path that is not on the branch: its children, and then the rest.
abbrev pub add_node :
    LinkState
    → Text
    → (Text → List Text → Nodes × List Text)
    → (List Text → Nodes × List Text)
    → List Text
    → Nodes × List Text
add_node state path subtree others visited =
    let below = subtree path (path ∷ visited) in
    let rest = others (unvisit path below.1) in (cons path state below.0 rest.0, rest.1)

-- The loop over the linked paths; `subtree` is the recursive call.
pub build_nodes :
    List Text → (Text → List Text → Nodes × List Text) → List Text → List Text → Nodes × List Text
unfolding link_state contains unvisit
build_nodes known subtree [] visited = (nil, visited)
build_nodes known subtree (p ∷ ps) visited =
    let skip = build_nodes known subtree ps visited in
    let enter = add_node (link_state known p) p subtree (build_nodes known subtree ps) visited in
    if contains p visited then skip else enter

-- Both builders, over the function that lists the linked paths of a file.
pub build_tree : (Text → List Text) → List Text → ℕ → Text → List Text → Nodes × List Text
unfolding build_nodes
build_tree next known zero file visited = (nil, visited)
build_tree next known (suc depth) file visited =
    build_nodes known (build_tree next known depth) (next file) visited

abbrev pub targets_of : LinkMap → Text → List Text
targets_of forward file = map (λ e. e.target) (or_default (lookup file forward))

abbrev pub sources_of : LinkMap → Text → List Text
sources_of backlinks file = map (λ e. e.source) (or_default (lookup file backlinks))

unfoldable pub build_outgoing_tree : LinkMap → List Text → ℕ → Text → List Text → Nodes × List Text
unfolding build_tree lookup
build_outgoing_tree forward known depth file visited =
    build_tree (targets_of forward) known depth file visited

unfoldable pub build_incoming_tree : LinkMap → List Text → ℕ → Text → List Text → Nodes × List Text
unfolding build_tree lookup
build_incoming_tree backlinks known depth file visited =
    build_tree (sources_of backlinks) known depth file visited

unfoldable pub count_nodes : Nodes → ℕ
count_nodes nil = 0
count_nodes (cons p s children rest) = (1 + count_nodes children) + count_nodes rest

unfoldable pub max_depth : Nodes → ℕ
max_depth nil = 0
max_depth (cons p s children rest) = max (1 + max_depth children) (max_depth rest)

pub record NeighborhoodResult : Type 0 where
  pub file : Text
  pub outgoing : Nodes
  pub incoming : Nodes
  pub outgoing_count : ℕ
  pub incoming_count : ℕ
  pub outgoing_depth_count : ℕ
  pub incoming_depth_count : ℕ

-- `depth.clamp(1, 3)`
abbrev pub clamp_depth : ℕ → ℕ
clamp_depth depth = min (max depth 1) 3

unfoldable pub neighborhood : LinkMap → List Text → Text → ℕ → NeighborhoodResult
unfolding build_outgoing_tree build_incoming_tree count_nodes max_depth compute_backlinks
neighborhood forward known file depth =
    let d = clamp_depth depth in
    let outgoing = (build_outgoing_tree forward known d file (file ∷ [])).0 in
    let incoming = (build_incoming_tree (compute_backlinks forward) known d file (file ∷ [])).0 in
    record {
      file = file;
      outgoing = outgoing;
      incoming = incoming;
      outgoing_count = count_nodes outgoing;
      incoming_count = count_nodes incoming;
      outgoing_depth_count = max_depth outgoing;
      incoming_depth_count = max_depth incoming;
    }
