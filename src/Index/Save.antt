-- ===== src/Index/Save.antt =====
-- `save` and `open_with_options` of src/index/state.rs: keys are compacted to the order of the
-- sorted identifiers, and assigned again from them when the index is opened. The lock, the clock
-- and the writing of the file are arguments.
pub mod Compact
pub mod Saved
pub mod Reload
use package.markdown_vdb.Base.{
  ℕ, zero, suc, ◌+◌, max, Bool, true, false, ◌&&◌, not, List, [], ◌∷◌, ◌++◌, map, filter, Option,
  none, some, Text, text_key, length, ltb, ◌==◌, if◌then◌else◌,
}
use package.markdown_vdb.Base.Strings.{codes}
use package.markdown_vdb.Base.Map.{lookup, insert, contains}
use package.markdown_vdb.Base.Sort.{sort_by, text_le}
use package.markdown_vdb.Base.Result.{Result, ok, err}
use package.markdown_vdb.Links.{LinkGraph}
use package.markdown_vdb.Index.{
  Error, serialization, index_dirty, index_not_found, version_mismatch, index_corrupted,
  config_error, Outside, EmbeddingConfig, IndexMetadata, IndexState, Outcome,
}
use package.markdown_vdb.Index.Vectors.{keys_of, forget_vectors, usearch_error}

abbrev pub sorted : List Text → List Text
sorted = sort_by text_le

-- Keys from `next` on, one for each identifier.
pub assign_keys : List Text → ℕ → List (Text × ℕ) → List (Text × ℕ) × ℕ
unfolding insert
assign_keys [] next m = (m, next)
assign_keys (id ∷ ids) next m = assign_keys ids (next + 1) (insert id next m)

module _ (o : Outside) where
  -- The keys of `link_graph.semantic_edges`, if there are any.
  abbrev pub edges_of :
      Option (LinkGraph (List (Text × o.SemanticEdge)) o.EdgeClusterState) → List Text
  edges_of none = []
  edges_of (some g) = elim g.semantic_edges [ none ↦ [] | some edges ↦ keys_of edges ]

  abbrev pub tracked_edges : IndexMetadata o → List Text
  tracked_edges m = edges_of m.link_graph

  -- What `open_with_options` makes of the metadata and the vector index that it loaded.
  unfoldable pub open_state : IndexMetadata o → o.Hnsw → IndexState o
  unfolding assign_keys sort_by text_le
  open_state metadata hnsw =
      let chunks = assign_keys (sorted (keys_of metadata.chunks)) 0 [] in
      let edges = assign_keys (sorted (tracked_edges metadata)) chunks.1 chunks.0 in
      record {
        metadata = metadata;
        hnsw = hnsw;
        id_to_key = edges.0;
        next_key = if ltb edges.1 (o.size hnsw) then o.size hnsw else edges.1;
        dirty = false;
      }

  -- Identifiers that belong neither to a chunk nor to a tracked edge.
  pub orphaned : IndexState o → List Text
  unfolding contains
  orphaned s =
      filter
        (λ id.
          not (contains id (keys_of s.metadata.chunks))
          && not (contains id (tracked_edges s.metadata)))
        (keys_of s.id_to_key)

  -- The identifiers in the order of their new keys.
  pub sorted_ids : IndexState o → List Text
  unfolding sort_by text_le contains
  sorted_ids s =
      let chunks = keys_of s.metadata.chunks in
      sorted chunks ++ sorted (filter (λ id. not (contains id chunks)) (keys_of s.id_to_key))

  pub record Compacted : Type 0 where
    pub new_hnsw : o.Hnsw
    pub new_id_to_key : List (Text × ℕ)
    pub next : ℕ
    pub buf : o.Vector

  -- The body of both loops over the identifiers.
  pub compact_one : IndexState o → Text → Compacted → Result Error Compacted
  unfolding lookup insert
  compact_one s id c =
      let keyed : o.Hnsw → o.Vector → Compacted = λ h buf. record {
        new_hnsw = h;
        new_id_to_key = insert id c.next c.new_id_to_key;
        next = c.next + 1;
        buf = buf;
      } in
      elim (lookup id s.id_to_key) [
        | none ↦ ok (keyed c.new_hnsw c.buf)
        | some old_key ↦
            let (is_ok, buf) = o.get_into old_key s.hnsw c.buf in
            let stored : Result Error Compacted = elim (o.add c.next buf c.new_hnsw) [
              | err e ↦ err (usearch_error o (codes "add") e)
              | ok grown ↦ ok (keyed grown buf)
            ] in
            if is_ok then stored else ok (keyed c.new_hnsw buf)
      ]

  pub compact : IndexState o → List Text → Compacted → Result Error Compacted
  unfolding compact_one
  compact s [] c = ok c
  compact s (id ∷ ids) c = elim (compact_one s id c) [ err e ↦ err e | ok d ↦ compact s ids d ]

  -- `create_hnsw`, and `reserve` unless there is nothing to store.
  pub fresh_hnsw : ℕ → ℕ → Result Error o.Hnsw
  fresh_hnsw dims total = elim (o.create_hnsw dims) [
    | err e ↦ err (serialization (codes "failed to create HNSW index: " ++ e))
    | ok h ↦
        let reserved : Result Error o.Hnsw = elim (o.reserve (max total 10) h) [
          | err e ↦ err (usearch_error o (codes "reserve") e)
          | ok grown ↦ ok grown
        ] in
        if ltb 0 total then reserved else ok h
  ]

  abbrev pub empty_compacted : o.Hnsw → o.Vector → Compacted
  empty_compacted h buf = record { new_hnsw = h; new_id_to_key = []; next = 0; buf = buf }

  -- The new vector index with its keys.
  pub compacted : IndexState o → Result Error Compacted
  unfolding fresh_hnsw compact sorted_ids
  compacted s =
      let dims = s.metadata.embedding_config.dimensions in
      elim (fresh_hnsw dims (length (sorted_ids s))) [
        | err e ↦ err e
        | ok h ↦ compact s (sorted_ids s) (empty_compacted h (o.zero_vector dims))
      ]

  -- The state without orphans, at the time of saving.
  unfoldable pub cleaned : ℕ → IndexState o → IndexState o
  unfolding orphaned forget_vectors
  cleaned now s =
      let stamped = record s { metadata = record s.metadata { last_updated = now } } in
      forget_vectors o (orphaned stamped) stamped

  abbrev pub replaced : IndexState o → Compacted → IndexState o
  replaced s c = record s { hnsw = c.new_hnsw; id_to_key = c.new_id_to_key; next_key = c.next }

  -- `write` is the lock and `write_index`.
  unfoldable pub save :
      ℕ → (IndexMetadata o → o.Hnsw → Result Error (Unit {0})) → IndexState o → Outcome o Unit
  unfolding cleaned compacted
  save now write s =
      let t = cleaned now s in
      elim (compacted t) [
        | err e ↦ (t, err e)
        | ok c ↦ elim (write t.metadata c.new_hnsw) [
          | err e ↦ (replaced t c, err e)
          | ok done ↦ (record (replaced t c) { dirty = false }, ok tt)
        ]
      ]

  -- `reload_from_disk_if_clean`; `open_disk` opens the file of the index.
  unfoldable pub reload_from_disk_if_clean :
      Text → Result Error (IndexState o) → IndexState o → Outcome o Bool
  reload_from_disk_if_clean path open_disk s =
      if s.dirty
      then (s, err (index_dirty path))
      else elim open_disk [ err e ↦ (s, err e) | ok refreshed ↦ (refreshed, ok true) ]
