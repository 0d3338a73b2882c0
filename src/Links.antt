-- ===== src/Links.antt =====
-- src/links.rs: the link graph, its inverse, and the queries on them. Maps are association lists
-- and sets are lists; the clock is an argument.
pub mod Entries
pub mod Graph
pub mod Update
pub mod Query
pub mod Neighborhood
pub mod Neighbors
mod Tests
use package.markdown_vdb.Base.{
  ℕ, zero, suc, ◌+◌, min, Bool, true, false, List, [], ◌∷◌, ◌++◌, ◌||◌, not, ◌&&◌, if◌then◌else◌,
  Option, none, some, Text, text_key, text_eq, LinkKey, link_key, is_empty, ltb, leb, map,
}
use package.markdown_vdb.Base.Strings.{codes, decimal}
use package.markdown_vdb.Base.Map.{lookup, insert, remove, contains}
use package.markdown_vdb.Parser.{MarkdownFile, RawLink, FrontmatterLink}
use package.markdown_vdb.PathUtil.{to_slash}
use package.markdown_vdb.Relations.{
  RelationContext, is_formula_field, resolve_link, resolve_relation_target,
}

pub record LinkEntry : Type 0 where
  pub source : Text
  pub target : Text
  pub text : Text
  pub line_number : ℕ
  pub is_wikilink : Bool
  pub field : Option Text

-- A map from a path to the links at it: `forward` and the backlinks.
abbrev pub LinkMap : Type 0
LinkMap = List (Text × List LinkEntry)

-- The fields that hold semantic edges and their clusters are those of other components, and stay
-- as they are in everything below.
pub record LinkGraph (Edges Clusters : Type 0) : Type 0 where
  pub forward : LinkMap
  pub last_updated : ℕ
  pub semantic_edges : Option Edges
  pub edge_cluster_state : Option Clusters

pub data LinkState : Type 0 where
  valid broken : LinkState

pub record ResolvedLink : Type 0 where
  pub entry : LinkEntry
  pub state : LinkState

pub record LinkQueryResult : Type 0 where
  pub file : Text
  pub outgoing : List ResolvedLink
  pub incoming : List LinkEntry

unfoldable pub edge_id : Text → Text → ℕ → Text
unfolding decimal
edge_id source target line =
    codes "edge:" ++ (source ++ (codes "->" ++ (target ++ (codes "@" ++ decimal line))))

entry_edge_id_by : LinkEntry → Option Text → Text
unfolding edge_id
entry_edge_id_by e (some field) =
    codes "edge:" ++ (e.source ++ (codes "->" ++ (e.target ++ (codes "@fm." ++ field))))
entry_edge_id_by e none = edge_id e.source e.target e.line_number

unfoldable pub entry_edge_id : LinkEntry → Text
unfolding entry_edge_id_by
entry_edge_id e = entry_edge_id_by e e.field

-- What both loops of `build_entries_for_file` fill: the keys seen and the entries, last ones last.
pub record Collected : Type 0 where
  pub seen : List LinkKey
  pub entries : List LinkEntry

abbrev pub collect_entry : LinkEntry → Collected → Collected
collect_entry e c = record { seen = (e.target, e.field) ∷ c.seen; entries = c.entries ++ e ∷ [] }

abbrev pub body_entry : Text → Text → RawLink → LinkEntry
body_entry source resolved raw = record {
  source = source;
  target = resolved;
  text = raw.text;
  line_number = raw.line_number;
  is_wikilink = raw.is_wikilink;
  field = none;
}

-- One round of the first loop.
pub add_body_link : Text → RawLink → Collected → Collected
unfolding resolve_link contains
add_body_link source raw c =
    let resolved = resolve_link source raw.target in
    if is_empty resolved
    then c
    else if text_eq resolved source
    then c
    else if contains (resolved, none) c.seen
    then c
    else collect_entry (body_entry source resolved raw) c

abbrev pub frontmatter_entry : Text → Text → FrontmatterLink → LinkEntry
frontmatter_entry source resolved link = record {
  source = source;
  target = resolved;
  text = link.text;
  line_number = 0;
  is_wikilink = link.is_wikilink;
  field = some link.field;
}

pub add_resolved : Text → FrontmatterLink → Option (Text × Bool) → Collected → Collected
unfolding contains
add_resolved source link none c = c
add_resolved source link (some (resolved, exists)) c =
    if text_eq resolved source
    then c
    else if contains (resolved, some link.field) c.seen
    then c
    else collect_entry (frontmatter_entry source resolved link) c

-- One round of the second loop.
pub add_frontmatter_link : RelationContext → Text → FrontmatterLink → Collected → Collected
unfolding add_resolved is_formula_field resolve_relation_target
add_frontmatter_link ctx source link c =
    if ctx.is_file_field source link.field || is_formula_field ctx source link.field
    then c
    else add_resolved source link
        (resolve_relation_target source link.target (ctx.target_for source link.field)
          ctx.known_files)
        c

pub add_body_links : Text → List RawLink → Collected → Collected
unfolding add_body_link
add_body_links source [] c = c
add_body_links source (l ∷ ls) c = add_body_links source ls (add_body_link source l c)

pub add_frontmatter_links : RelationContext → Text → List FrontmatterLink → Collected → Collected
unfolding add_frontmatter_link
add_frontmatter_links ctx source [] c = c
add_frontmatter_links ctx source (l ∷ ls) c =
    add_frontmatter_links ctx source ls (add_frontmatter_link ctx source l c)

unfoldable pub build_entries_for_file : MarkdownFile → RelationContext → Text × List LinkEntry
unfolding add_body_links add_frontmatter_links to_slash
build_entries_for_file file ctx =
    let source = to_slash file.path in
    let body = add_body_links source file.links (record { seen = []; entries = [] }) in
    (source, (add_frontmatter_links ctx source file.frontmatter_links body).entries)

-- One round of the loop of `build_link_graph`.
pub insert_entries : Text × List LinkEntry → LinkMap → LinkMap
unfolding insert
insert_entries (source, entries) forward =
    if is_empty entries then forward else insert source entries forward

pub build_forward : List MarkdownFile → RelationContext → LinkMap → LinkMap
unfolding insert_entries build_entries_for_file
build_forward [] ctx forward = forward
build_forward (f ∷ fs) ctx forward =
    build_forward fs ctx (insert_entries (build_entries_for_file f ctx) forward)

module _ {Edges Clusters : Type 0} where
  unfoldable pub build_link_graph :
      ℕ → List MarkdownFile → RelationContext → LinkGraph Edges Clusters
  unfolding build_forward
  build_link_graph now files ctx = record {
    forward = build_forward files ctx [];
    last_updated = now;
    semantic_edges = none;
    edge_cluster_state = none;
  }

  unfoldable pub update_file_links :
      ℕ → LinkGraph Edges Clusters → MarkdownFile → RelationContext → LinkGraph Edges Clusters
  unfolding build_entries_for_file insert_entries remove
  update_file_links now graph file ctx =
      let built = build_entries_for_file file ctx in
      record graph {
        forward = insert_entries built (remove built.0 graph.forward);
        last_updated = now;
      }

  unfoldable pub remove_file_links : ℕ → LinkGraph Edges Clusters → Text → LinkGraph Edges Clusters
  unfolding remove
  remove_file_links now graph path = record graph {
    forward = remove path graph.forward;
    last_updated = now;
  }
