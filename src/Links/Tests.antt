-- ===== src/Links/Tests.antt =====
-- A small graph, and the theorems on it.
use markdown_vdb.Base.{
  ℕ, ◌≤◌, Bool, true, false, List, [], ◌∷◌, ◌≡◌, ◌≢◌, refl, ◌⊎◌, arith, none, some, Text, text_eq,
  text_key, ◌∈◌, All,
}
use Prim.Native.String.{String}
use markdown_vdb.Base.Strings.{codes, before, trim}
use markdown_vdb.Base.Map.{lookup, contains}
use markdown_vdb.Base.Sort.{IsSorted, text_le}
use markdown_vdb.Parser.{MarkdownFile, RawLink, FrontmatterLink}
use markdown_vdb.PathUtil.{to_slash}
use markdown_vdb.Relations.{
  RelationContext, resolve_link, resolve_relation_target, relation_target_candidates,
}
use markdown_vdb.Relations.Resolve.{
  resolve_link-IsMarkdown, resolve_relation_target-Chosen, Chosen, IsMarkdown,
}
use markdown_vdb.Links.{
  LinkGraph, build_link_graph, build_entries_for_file, update_file_links, remove_file_links,
}
use markdown_vdb.Links.Entries.{AreEntriesOf, build_entries_for_file-AreEntriesOf}
use markdown_vdb.Links.Graph.{IsGraph, LinkGraph-IsGraph}
use markdown_vdb.Links.Update.{update-build, Agrees}
use markdown_vdb.Links.Query.{compute_backlinks, find_orphans}
use markdown_vdb.Links.Query.Backlinks.{
  lookup-compute_backlinks, find_orphans_iff, extend, pointing_to, all_entries, IsIsolated,
}
use mathlib.Core.Logic.{◌↔◌}
use markdown_vdb.Links.Neighborhood.{neighborhood, targets_of, sources_of}
use markdown_vdb.Links.Neighborhood.Branches.{
  HasBranch, IsSimplePath, StatesAreRight, neighborhood-branches,
}
use markdown_vdb.Links.Neighbors.{bfs_neighbors}
use markdown_vdb.Links.Neighbors.Rounds.{near, HasDistances}
use markdown_vdb.Links.Neighbors.Distance.{bfs_neighbors-HasDistances}

abbrev link : String → ℕ → RawLink
link target line = record {
  target = codes target;
  text = codes "text";
  line_number = line;
  is_wikilink = false;
}

abbrev file : String → List RawLink → List FrontmatterLink → MarkdownFile
file path links relations = record {
  path = codes path;
  headings = [];
  body = [];
  content_hash = [];
  file_size = 0;
  links = links;
  modified_at = 0;
  frontmatter_links = relations;
}

abbrev author : FrontmatterLink
author = record {
  field = codes "author";
  raw = codes "[[ada]]";
  target = codes "ada";
  text = codes "ada";
  is_wikilink = true;
}

-- A context without an overlay.
abbrev context : RelationContext
context = record {
  known_files = codes "docs/a.md" ∷ codes "docs/b.md" ∷ codes "people/ada.md" ∷ [];
  is_file_field = λ source field. false;
  is_computed_field = λ source field. false;
  target_for = λ source field. some (codes "people");
}

-- A link to `b` twice, one to itself, and a relation.
abbrev doc_a : MarkdownFile
doc_a = file "docs/a.md" (link "b.md#top" 3 ∷ link "./b" 5 ∷ link "a.md" 6 ∷ []) (author ∷ [])

abbrev doc_a' : MarkdownFile
doc_a' = file "docs/a.md" [] []

abbrev doc_b : MarkdownFile
doc_b = file "docs/b.md" (link "../c.md" 1 ∷ []) []

abbrev empty : LinkGraph Bool Bool
empty = record { forward = []; last_updated = 0; semantic_edges = none; edge_cluster_state = none }

abbrev graph : LinkGraph Bool Bool
graph = build_link_graph 7 (doc_a ∷ doc_b ∷ []) context

resolved : resolve_link (codes "docs/guides/a.md") (codes " ../b#part ") ≡ codes "docs/b.md"
unfolding resolve_link text_eq
resolved = refl

above_root : resolve_link (codes "a.md") (codes "../../b.md") ≡ codes "b.md"
unfolding resolve_link text_eq
above_root = refl

entries_of_a : build_entries_for_file doc_a context ≡ (
  codes "docs/a.md",
  record {
    source = codes "docs/a.md";
    target = codes "docs/b.md";
    text = codes "text";
    line_number = 3;
    is_wikilink = false;
    field = none;
  }
      ∷ record {
        source = codes "docs/a.md";
        target = codes "people/ada.md";
        text = codes "ada";
        line_number = 0;
        is_wikilink = true;
        field = some (codes "author");
      }
      ∷ [],
)
unfolding build_entries_for_file text_eq
entries_of_a = refl

orphans_of_graph :
    find_orphans graph.forward
      (codes "x.md" ∷ codes "docs/b.md" ∷ codes "docs/a.md" ∷ codes "e.md" ∷ [])
    ≡ codes "e.md" ∷ codes "x.md" ∷ []
unfolding find_orphans build_link_graph text_eq
orphans_of_graph = refl

resolve_link-IsMarkdown_example :
    ((before b'#' (trim (codes "b")) ≡ []) × (resolve_link (codes "a.md") (codes "b") ≡ []))
    ⊎ ((before b'#' (trim (codes "b")) ≢ []) × IsMarkdown (resolve_link (codes "a.md") (codes "b")))
resolve_link-IsMarkdown_example = resolve_link-IsMarkdown (codes "a.md") (codes "b")

resolve_relation_target-Chosen_example :
    Chosen context.known_files
      (relation_target_candidates (codes "docs/a.md") (codes "ada") none)
      (resolve_relation_target (codes "docs/a.md") (codes "ada") none context.known_files)
    × All IsMarkdown (relation_target_candidates (codes "docs/a.md") (codes "ada") none)
resolve_relation_target-Chosen_example =
    resolve_relation_target-Chosen (codes "docs/a.md") (codes "ada") none context.known_files

build_entries_for_file-AreEntriesOf_example :
    AreEntriesOf (to_slash doc_a.path) (build_entries_for_file doc_a context).1
build_entries_for_file-AreEntriesOf_example =
    build_entries_for_file-AreEntriesOf doc_a context (omega arith)

LinkGraph-IsGraph_example :
    IsGraph {Edges = Bool} {Clusters = Bool} (build_link_graph 8 (doc_a ∷ doc_b ∷ []) context)
    × IsGraph (update_file_links 8 empty doc_b context)
    × IsGraph (remove_file_links 8 empty (codes "docs/a.md"))
LinkGraph-IsGraph_example =
    LinkGraph-IsGraph 8 (doc_a ∷ doc_b ∷ []) context empty doc_b (codes "docs/a.md") (omega arith)
      (omega arith) (tt, tt)

update-build_example :
    Agrees Bool Bool 9 7 context (update_file_links 9 graph doc_a' context) (doc_a' ∷ doc_b ∷ [])
    × Agrees Bool Bool 9 7 context (remove_file_links 9 graph (codes "docs/a.md")) (doc_b ∷ [])
unfolding text_eq contains to_slash
update-build_example =
    update-build Bool Bool 9 7 context [] doc_a doc_a' (doc_b ∷ []) refl (refl, (refl, tt))

lookup-compute_backlinks_example :
    lookup (codes "docs/b.md") (compute_backlinks graph.forward)
    ≡ extend none (pointing_to (codes "docs/b.md") (all_entries graph.forward))
lookup-compute_backlinks_example = lookup-compute_backlinks (codes "docs/b.md") graph.forward

find_orphans_iff_example :
    ((path : Text)
      → (path ∈ find_orphans graph.forward (codes "e.md" ∷ [])
          → (path ∈ codes "e.md" ∷ []) × IsIsolated graph.forward path)
        × ((path ∈ codes "e.md" ∷ []) × IsIsolated graph.forward path
            → path ∈ find_orphans graph.forward (codes "e.md" ∷ [])))
    × IsSorted text_le (find_orphans graph.forward (codes "e.md" ∷ []))
find_orphans_iff_example = find_orphans_iff graph.forward (codes "e.md" ∷ [])

neighborhood-branches_example :
    let out = neighborhood graph.forward (codes "docs/b.md" ∷ []) (codes "docs/a.md") 2 in
    ((path : List Text)
      → (HasBranch out.outgoing path
          ↔ IsSimplePath
              (targets_of graph.forward)
              (codes "docs/b.md" ∷ [])
              (codes "docs/a.md" ∷ [])
              2
              (codes "docs/a.md")
              path)
        × (HasBranch out.incoming path
            ↔ IsSimplePath
                (sources_of (compute_backlinks graph.forward))
                (codes "docs/b.md" ∷ [])
                (codes "docs/a.md" ∷ [])
                2
                (codes "docs/a.md")
                path))
    × StatesAreRight (codes "docs/b.md" ∷ []) out.outgoing
    × StatesAreRight (codes "docs/b.md" ∷ []) out.incoming
    × (out.outgoing_depth_count ≤ 3)
    × (out.incoming_depth_count ≤ 3)
neighborhood-branches_example =
    neighborhood-branches graph.forward (codes "docs/b.md" ∷ []) (codes "docs/a.md") 2

found_from_a :
    bfs_neighbors graph.forward (compute_backlinks graph.forward) (codes "docs/a.md" ∷ []) 5
    ≡ some ((codes "docs/b.md", 1) ∷ (codes "people/ada.md", 1) ∷ (codes "c.md", 2) ∷ [])
unfolding bfs_neighbors compute_backlinks text_eq build_link_graph
found_from_a = refl

bfs_neighbors-HasDistances_example :
    (found : List (Text × ℕ)) × (bfs_neighbors graph.forward
        (compute_backlinks graph.forward)
        (codes "docs/a.md" ∷ [])
        5
      ≡ some found)
    × HasDistances
        (near graph.forward (compute_backlinks graph.forward))
        (codes "docs/a.md" ∷ [])
        3
        found
    × ((v : Text) → v ∈ codes "docs/a.md" ∷ [] → lookup v found ≡ none)
bfs_neighbors-HasDistances_example =
    bfs_neighbors-HasDistances graph.forward (compute_backlinks graph.forward)
      (codes "docs/a.md" ∷ []) 5
