-- ===== src/Index/Tests/Vectors.antt =====
-- The operations on vectors, the save and the opening, run on a small index.
use markdown_vdb.Base.{
  true, List, [], ◌∷◌, none, some, Text, text_key, text_eq, text_eq_iff, ◌≡◌, refl, arith, ◌⊎◌,
}
use markdown_vdb.Base.Strings.{codes}
use markdown_vdb.PathUtil.{to_slash}
use markdown_vdb.Base.Map.{lookup, contains}
use markdown_vdb.Base.Result.{Result, ok}
use markdown_vdb.Chunker.{Chunk}
use markdown_vdb.Index.{Error, IndexState, IndexMetadata, StoredFile}
use markdown_vdb.Index.Vectors.{upsert, upsert_edges, remove_file}
use markdown_vdb.Index.Vectors.View.{HasVectors, view}
use markdown_vdb.Index.Vectors.Complete.{writes-HasVectors}
use markdown_vdb.Index.Vectors.Upsert.{Upserted, RanOut, upsert-Upserted}
use markdown_vdb.Index.Vectors.Edges.{
  EdgesAssigned, upsert_edges-Assigned, Removed, remove_file-Removed,
}
use markdown_vdb.Index.Save.{save, open_state, tracked_edges}
use markdown_vdb.Index.Save.Saved.{SavesTo, save-SavesTo}
use markdown_vdb.Index.Save.Reload.{HasTrackedKeys, Reopens, open_state-save}
use markdown_vdb.Index.Tests.{
  Graph, outside, outside-Laws, chunk, first, second, edge, start, start-IsValid, start-IsComplete,
  file,
}

abbrev chunks : List Chunk
chunks = chunk first 0 ∷ chunk second 1 ∷ []

abbrev write : IndexMetadata outside → Graph → Result Error (Unit {0})
write m h = ok tt

-- Both chunks get the new vectors, and the edge keeps its own.
upsert_run :
    (view outside (upsert outside 7 (file (codes "6")) chunks (50 ∷ 60 ∷ []) start).0 first
      ≡ some 50)
    × (view outside (upsert outside 7 (file (codes "6")) chunks (50 ∷ 60 ∷ []) start).0 second
        ≡ some 60)
    × (view outside (upsert outside 7 (file (codes "6")) chunks (50 ∷ 60 ∷ []) start).0 edge
        ≡ some 30)
unfolding upsert lookup text_eq
upsert_run = (refl, refl, refl)

upsert-Upserted_example :
    (((upsert outside 7 (file (codes "6")) chunks (50 ∷ 60 ∷ []) start).1 ≡ ok tt)
      × Upserted outside outside-Laws 7
          (file (codes "6"))
          chunks
          (50 ∷ 60 ∷ [])
          start
          (upsert outside 7 (file (codes "6")) chunks (50 ∷ 60 ∷ []) start).0)
    ⊎ RanOut outside outside-Laws 2
        (first ∷ [])
        start
        (upsert outside 7 (file (codes "6")) chunks (50 ∷ 60 ∷ []) start)
unfolding lookup text_eq to_slash
upsert-Upserted_example =
    upsert-Upserted outside outside-Laws 7 (file (codes "6")) chunks (50 ∷ 60 ∷ []) start
      start-IsValid (omega arith)

upsert_edges-Assigned_example :
    (((upsert_edges outside ((edge, 31) ∷ []) start).1 ≡ ok tt)
      × EdgesAssigned outside outside-Laws
          ((edge, 31) ∷ [])
          start
          start-IsValid
          (upsert_edges outside ((edge, 31) ∷ []) start).0)
    ⊎ RanOut outside outside-Laws 1 (edge ∷ []) start (upsert_edges outside ((edge, 31) ∷ []) start)
upsert_edges-Assigned_example =
    upsert_edges-Assigned outside outside-Laws ((edge, 31) ∷ []) start start-IsValid

writes-HasVectors_example :
    HasVectors outside (upsert outside 7 (file (codes "6")) chunks (50 ∷ 60 ∷ []) start).0
    × HasVectors outside (upsert_edges outside ((edge, 31) ∷ []) start).0
    × HasVectors outside (remove_file outside (codes "a.md") start).0
writes-HasVectors_example =
    writes-HasVectors outside outside-Laws start start-IsValid start-IsComplete.vectors 7
      (file (codes "6")) chunks (50 ∷ 60 ∷ []) ((edge, 31) ∷ []) (codes "a.md") (omega arith)

save-SavesTo_example :
    SavesTo outside outside-Laws 8 write start start-IsValid start-IsComplete
      (save outside 8 write start)
save-SavesTo_example =
    save-SavesTo outside outside-Laws 8 write start start-IsValid start-IsComplete

only_edge : (id : Text) → contains id (tracked_edges outside start.metadata) ≡ true → id ≡ edge
unfolding contains
only_edge id h = ground (arith, text_eq_iff edge id)

start-HasTrackedKeys : HasTrackedKeys outside start
unfolding contains text_eq
start-HasTrackedKeys = record {
  one_key = ((refl, tt), (tt, tt));
  once = (refl, tt);
  keyed = λ id h. rw (only_edge id h) refl;
  no_chunk = λ id h. rw (only_edge id h) refl;
}

save_run : (save outside 8 write start).1 ≡ ok tt
unfolding save lookup text_eq
save_run = refl

open_state-save_example :
    Reopens outside outside-Laws 8 write start start-IsValid start-IsComplete start-HasTrackedKeys
      (save outside 8 write start).0
open_state-save_example =
    open_state-save outside outside-Laws 8 write start start-IsValid start-IsComplete
      start-HasTrackedKeys save_run

remove_file-Removed_example :
    ((remove_file outside (codes "a.md") start).1 ≡ ok tt)
    × (((lookup (codes "a.md") start.metadata.files ≡ none)
          × ((remove_file outside (codes "a.md") start).0 ≡ start))
        ⊎ ((old : StoredFile outside) × (lookup (codes "a.md") start.metadata.files ≡ some old)
            × Removed outside outside-Laws
                (codes "a.md")
                start
                start-IsValid
                old
                (remove_file outside (codes "a.md") start).0))
remove_file-Removed_example =
    remove_file-Removed outside outside-Laws (codes "a.md") start start-IsValid

-- A second edge is tracked, and sorts before the other, but it has no vector.
abbrev early : Text
early = codes "edge:a.md->a.md@0"

abbrev untracked : IndexState outside
untracked = record start {
  metadata = record start.metadata {
    link_graph = some (record {
      forward = [];
      last_updated = 0;
      semantic_edges = some ((early, 0) ∷ (edge, 0) ∷ []);
      edge_cluster_state = none;
    });
  };
}

-- Saved and opened again, the early edge has the vector of the other, which has none.
reopened_run :
    let t = (save outside 8 write untracked).0 in
    let u = open_state outside t.metadata t.hnsw in
    (view outside t edge ≡ some 30)
    × (view outside t early ≡ none)
    × (view outside u edge ≡ none)
    × (view outside u early ≡ some 30)
unfolding save lookup text_eq open_state
reopened_run = (refl, refl, refl, refl)

-- The key of the edge has no vector: saved, the edge has the vector of the chunk before it.
abbrev keyed_only : IndexState outside
keyed_only = record start { hnsw = record { room = 4; vectors = (2, 20) ∷ [] } }

stale_run :
    let t = (save outside 8 write keyed_only).0 in
    (view outside keyed_only edge ≡ none)
    × (view outside t first ≡ some 20)
    × (view outside t edge ≡ some 20)
unfolding save lookup text_eq
stale_run = (refl, refl, refl)
