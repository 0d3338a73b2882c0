-- ===== src/Links/Neighbors.antt =====
-- `bfs_neighbors` of src/links.rs: breadth-first search over links in both directions.
pub mod Walks
pub mod Fuel
pub mod Seeds
pub mod Rounds
pub mod Distance
use package.markdown_vdb.Base.{
  ℕ, zero, suc, ◌+◌, min, ◌||◌, ◌==◌, leb, List, [], ◌∷◌, ◌++◌, if◌then◌else◌, Option, some, none,
  Text, text_key, is_empty, length,
}
use package.markdown_vdb.Base.Map.{lookup, insert, contains}
use package.markdown_vdb.Links.{LinkMap}
use package.markdown_vdb.Links.Neighborhood.{targets_of, sources_of}

pub record Search : Type 0 where
  pub visited : List Text
  pub result : List (Text × ℕ)
  pub queue : List (Text × ℕ)

pub visit_seed : Text → Search → Search
unfolding contains
visit_seed path s =
    if contains path s.visited
    then s
    else record s { visited = path ∷ s.visited; queue = s.queue ++ (path, 0) ∷ [] }

pub visit_seeds : List Text → Search → Search
unfolding visit_seed
visit_seeds [] s = s
visit_seeds (p ∷ ps) s = visit_seeds ps (visit_seed p s)

-- The body of both loops over the links of a file.
pub visit : ℕ → Text → Search → Search
unfolding contains insert
visit depth path s = if contains path s.visited then s else record {
  visited = path ∷ s.visited;
  result = insert path depth s.result;
  queue = s.queue ++ (path, depth) ∷ [];
}

pub visit_all : ℕ → List Text → Search → Search
unfolding visit
visit_all depth [] s = s
visit_all depth (p ∷ ps) s = visit_all depth ps (visit depth p s)

module _ (forward backlinks : LinkMap) (max_depth : ℕ) where
  -- The `while let` loop; `none` says that the fuel ran out.
  pub bfs_loop : ℕ → Search → List (Text × ℕ) → Option (List (Text × ℕ))
  unfolding visit_all lookup
  bfs_loop fuel s [] = some s.result
  bfs_loop zero s ((current, depth) ∷ queue) = none
  bfs_loop (suc fuel) s ((current, depth) ∷ queue) =
      let popped = record s { queue = queue } in
      let out = visit_all (depth + 1) (targets_of forward current) popped in
      let seen = visit_all (depth + 1) (sources_of backlinks current) out in
      let skip = bfs_loop fuel popped popped.queue in
      let spread = bfs_loop fuel seen seen.queue in if leb max_depth depth then skip else spread

abbrev pub empty_search : Search
empty_search = record { visited = []; result = []; queue = [] }

-- The links of a map, with repetitions.
abbrev pub link_count : LinkMap → ℕ
link_count [] = 0
link_count ((k, es) ∷ m) = length es + link_count m

-- Each round takes a visited path off the queue, and a path is visited once: there are no more
-- than the seeds and the ends of the links.
unfoldable pub bfs_neighbors : LinkMap → LinkMap → List Text → ℕ → Option (List (Text × ℕ))
unfolding visit_seeds bfs_loop
bfs_neighbors forward backlinks seeds max_depth =
    let m = min max_depth 3 in
    let s = visit_seeds seeds empty_search in
    let found =
      bfs_loop forward backlinks m (length seeds + (link_count forward + link_count backlinks)) s
        s.queue in
    if m == 0 || is_empty seeds then some [] else found
