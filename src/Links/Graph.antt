-- ===== src/Links/Graph.antt =====
-- The invariant of the link graph, and that every operation on it keeps it.
use markdown_vdb.Base.{ℕ, ◌<◌, List, [], ◌∷◌, ◌≢◌, Text, text_key, All}
use markdown_vdb.Base.Map.{remove, IsMap, insert-IsMap, remove-IsMap, All-insert, All-remove}
use markdown_vdb.Parser.{MarkdownFile}
use markdown_vdb.PathUtil.{to_slash}
use markdown_vdb.Relations.{RelationContext}
use markdown_vdb.Links.{
  LinkEntry, LinkMap, LinkGraph, build_entries_for_file, insert_entries, build_forward,
  build_link_graph, update_file_links, remove_file_links,
}
use markdown_vdb.Links.Entries.{AreEntriesOf, build_entries_for_file-AreEntriesOf}

-- Each path has one list of links, which is not empty and holds entries of that path.
abbrev pub IsForward : LinkMap → Type 0
IsForward m = IsMap m × All (λ p. (p.1 ≢ []) × AreEntriesOf p.0 p.1) m

abbrev pub HasLines : MarkdownFile → Type 0
HasLines f = All (λ l. 0 < l.line_number) f.links

insert_entries-IsForward :
    (source : Text) (entries : List LinkEntry) (m : LinkMap)
    → AreEntriesOf source entries
    → IsForward m
    → IsForward (insert_entries (source, entries) m)
unfolding insert_entries
insert_entries-IsForward source [] m a h = h
insert_entries-IsForward source (e ∷ es) m a h = (
  insert-IsMap source (e ∷ es) m h.0,
  All-insert (λ k v. (v ≢ []) × AreEntriesOf k v) source (e ∷ es) m h.1 ((λ n. cc), a),
)

built-IsForward :
    (file : MarkdownFile) (ctx : RelationContext) (m : LinkMap)
    → HasLines file
    → IsForward m
    → IsForward (insert_entries (build_entries_for_file file ctx) m)
unfolding build_entries_for_file
built-IsForward file ctx m l h =
    insert_entries-IsForward (to_slash file.path) (build_entries_for_file file ctx).1 m
      (build_entries_for_file-AreEntriesOf file ctx l) h

build_forward-IsForward :
    (files : List MarkdownFile) (ctx : RelationContext) (m : LinkMap)
    → All HasLines files
    → IsForward m
    → IsForward (build_forward files ctx m)
unfolding build_forward
build_forward-IsForward [] ctx m l h = h
build_forward-IsForward (f ∷ fs) ctx m l h =
    build_forward-IsForward fs ctx (insert_entries (build_entries_for_file f ctx) m) l.1
      (built-IsForward f ctx m l.0 h)

remove-IsForward : (path : Text) (m : LinkMap) → IsForward m → IsForward (remove path m)
remove-IsForward path m h =
    (remove-IsMap path m h.0, All-remove (λ k v. (v ≢ []) × AreEntriesOf k v) path m h.1)

module _ {Edges Clusters : Type 0} where
  -- The graph is well formed: no path twice, no empty list of links, and under each path only
  -- entries from it, to other paths that end in `.md`, with no target and field twice.
  abbrev pub IsGraph : LinkGraph Edges Clusters → Type 0
  IsGraph g = IsForward g.forward

  -- Building a graph from parsed files, updating a file in it and removing one keep it well
  -- formed, when the body links of the files have 1-based lines.
  pub LinkGraph-IsGraph :
      (now : ℕ) (files : List MarkdownFile) (ctx : RelationContext) (g : LinkGraph Edges Clusters)
      (file : MarkdownFile) (path : Text)
      → All HasLines files
      → HasLines file
      → IsGraph g
      → IsGraph (build_link_graph now files ctx)
        × IsGraph (update_file_links now g file ctx)
        × IsGraph (remove_file_links now g path)
  unfolding build_link_graph update_file_links remove_file_links
  LinkGraph-IsGraph now files ctx g file path ls l h = (
    build_forward-IsForward files ctx [] ls (tt, tt),
    built-IsForward file ctx (remove (to_slash file.path) g.forward) l
        (remove-IsForward (to_slash file.path) g.forward h),
    remove-IsForward path g.forward h,
  )
