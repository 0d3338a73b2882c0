-- ===== src/Index/Metadata/Steps.antt =====
-- The write operations of src/index/state.rs as steps between states, whatever they return.
use markdown_vdb.Base.{
  ℕ, Bool, not, List, [], ◌∷◌, filter, Option, Text, text_key, text_eq, ◌≡◌, refl, sym, ◌∙◌, inl,
  inr, Bool-cases, Option-cases, subst, length, All, ◌==◌,
}
use markdown_vdb.Base.Strings.{starts_with}
use markdown_vdb.Base.Map.{lookup, remove, contains}
use markdown_vdb.Base.Result.{Result, Result-cases}
use markdown_vdb.Parser.{MarkdownFile}
use markdown_vdb.PathUtil.{to_slash}
use markdown_vdb.Chunker.{Chunk}
use markdown_vdb.Links.{LinkGraph}
use markdown_vdb.Index.{
  Error, Outside, EmbeddingConfig, IndexState, IndexMetadata, StoredFile, ComputedFields,
  stored_file, reconcile_materialized_proofs, frontmatter_text,
}
use markdown_vdb.Index.Vectors.{
  keys_of, forget_vectors, forget_chunks, add_vector, insert_edges, ensure_capacity, upsert,
  upsert_edges, remove_present, remove_file, edge_prefix,
}
use markdown_vdb.Index.Vectors.ForgetFile.{forget_chunks-metadata, forget_vectors-metadata}
use markdown_vdb.Index.Save.{cleaned, compacted, save, orphaned}
use markdown_vdb.Index.Metadata.{
  reset_embedding_space, insert_unembedded_source_metadata, replace_computed_fields, refreshed_file,
  refresh_source_metadata, apply_module_source_state, in_scope, clear_files,
  clear_computed_fields_for_module, update_clusters, update_custom_clusters, update_link_graph,
  set_schema, set_scoped_schemas,
}
use markdown_vdb.Index.Metadata.Proofs.{
  EntryIsProved, FileIsProved, FilesAreProved, IsProved, insert-FilesAreProved,
  remove-FilesAreProved, reconciled, add_vector-metadata, upsert-IsProved,
}

module _ (o : Outside) where
  -- One write operation, with any arguments and any outcome.
  pub data Step : IndexState o → IndexState o → Type 0 where
    by_reset :
        (now : ℕ) (config : EmbeddingConfig) (s : IndexState o)
        → Step s (reset_embedding_space o now config s).0
    by_upsert :
        (now : ℕ) (file : MarkdownFile) (cs : List Chunk) (vs : List o.Vector) (s : IndexState o)
        → Step s (upsert o now file cs vs s).0
    by_insert_unembedded :
        (now : ℕ) (file : MarkdownFile) (s : IndexState o)
        → Step s (insert_unembedded_source_metadata o now file s).0
    by_upsert_edges :
        (edges : List (Text × o.Vector)) (s : IndexState o) → Step s (upsert_edges o edges s).0
    by_remove_file : (path : Text) (s : IndexState o) → Step s (remove_file o path s).0
    by_replace_computed_fields :
        (path : Text) (fields : ComputedFields o) (s : IndexState o)
        → Step s (replace_computed_fields o path fields s).0
    by_refresh :
        (file : MarkdownFile) (s : IndexState o) → Step s (refresh_source_metadata o file s).0
    by_apply :
        (expected : Text) (file : MarkdownFile) (fields : ComputedFields o) (s : IndexState o)
        → Step s (apply_module_source_state o expected file fields s).0
    by_clear :
        (owner : Text) (scope : Option Text) (s : IndexState o)
        → Step s (clear_computed_fields_for_module o owner scope s).0
    by_update_clusters :
        (c : Option o.ClusterState) (s : IndexState o) → Step s (update_clusters o c s)
    by_update_custom_clusters :
        (c : Option o.CustomClusterState) (s : IndexState o) → Step s (update_custom_clusters o c s)
    by_update_link_graph :
        (g : Option (LinkGraph (List (Text × o.SemanticEdge)) o.EdgeClusterState))
        (s : IndexState o)
        → Step s (update_link_graph o g s)
    by_set_schema : (c : Option o.Schema) (s : IndexState o) → Step s (set_schema o c s)
    by_set_scoped_schemas :
        (c : Option (List o.ScopedSchema)) (s : IndexState o) → Step s (set_scoped_schemas o c s)
    by_save :
        (now : ℕ) (write : IndexMetadata o → o.Hnsw → Result Error (Unit {0})) (s : IndexState o)
        → Step s (save o now write s).0

  -- Write operations one after the other.
  pub data Steps : IndexState o → IndexState o → Type 0 where
    done : (s : IndexState o) → Steps s s
    step : {s t u : IndexState o} → Step s t → Steps t u → Steps s u

  insert_edges-metadata :
      (edges : List (Text × o.Vector)) (s : IndexState o)
      → (insert_edges o edges s).0.metadata ≡ s.metadata
  unfolding insert_edges
  insert_edges-metadata [] s = refl
  insert_edges-metadata ((id, v) ∷ edges) s = elim (Result-cases (add_vector o id v s).1) [
    | inr (e, failed) ↦ rw (failed, insert_edges) (add_vector-metadata o id v s)
    | inl (ended, added) ↦
        rw (added, insert_edges)
          (insert_edges-metadata edges (add_vector o id v s).0 ∙ add_vector-metadata o id v s)
  ]

  upsert_edges-metadata :
      (edges : List (Text × o.Vector)) (s : IndexState o)
      → (upsert_edges o edges s).0.metadata ≡ s.metadata
  unfolding upsert_edges
  upsert_edges-metadata edges s =
      let old = forget_vectors o (keys_of edges) s in
      let forgot = forget_vectors-metadata o (keys_of edges) s in
      elim (Result-cases (ensure_capacity o (length edges) old.hnsw)) [
        | inr (e, failed) ↦ rw (failed, upsert_edges) forgot
        | inl (h, grown) ↦
            let kept = insert_edges-metadata edges (record old { hnsw = h }) ∙ forgot in
            elim (Result-cases (insert_edges o edges (record old { hnsw = h })).1) [
              | inr (e, failed) ↦ rw (grown, failed, upsert_edges) kept
              | inl (ended, added) ↦ rw (grown, added, upsert_edges) kept
            ]
      ]

  remove_file-IsProved :
      (path : Text) (s : IndexState o) → IsProved o s → IsProved o (remove_file o path s).0
  unfolding remove_file remove_present
  remove_file-IsProved path s all = elim (Option-cases (lookup path s.metadata.files)) [
    | inl absent ↦ rw (absent, remove_file) all
    | inr (file, found) ↦
        let rest = record s {
          metadata = record s.metadata { files = remove path s.metadata.files };
        } in
        let t = forget_chunks o file.chunk_ids rest in
        let edges = filter (starts_with (edge_prefix o path)) (keys_of t.id_to_key) in
        rw (found, remove_file)
          (subst (λ m. FilesAreProved o m.files)
            (sym (forget_vectors-metadata o edges t ∙ forget_chunks-metadata o file.chunk_ids rest))
            (remove-FilesAreProved o path s.metadata.files all))
  ]

  insert_unembedded-IsProved :
      (now : ℕ) (file : MarkdownFile) (s : IndexState o)
      → IsProved o s
      → IsProved o (insert_unembedded_source_metadata o now file s).0
  unfolding insert_unembedded_source_metadata stored_file
  insert_unembedded-IsProved now file s all =
      let path = to_slash file.path in
      elim (Bool-cases (contains path (keys_of s.metadata.files))) [
        | inl old ↦ rw (old, insert_unembedded_source_metadata) all
        | inr new_file ↦
            rw (new_file, insert_unembedded_source_metadata)
              (insert-FilesAreProved o path
                (record (stored_file o now file) { embedding_body_hash = [] }) s.metadata.files all
                tt)
      ]

  replace-IsProved :
      (path : Text) (fields : ComputedFields o) (s : IndexState o)
      → IsProved o s
      → IsProved o (replace_computed_fields o path fields s).0
  unfolding replace_computed_fields
  replace-IsProved path fields s all = elim (Option-cases (lookup path s.metadata.files)) [
    | inl absent ↦ rw (absent, replace_computed_fields) all
    | inr (f, found) ↦
        let g = record f { computed_fields = fields } in
        rw (found, replace_computed_fields)
          (insert-FilesAreProved o path (reconcile_materialized_proofs o g) s.metadata.files all
            (reconciled o g))
  ]

  refreshed-IsProved :
      (file : MarkdownFile) (fields : ComputedFields o) (f : StoredFile o)
      → FileIsProved o (refreshed_file o file fields f)
  unfolding refreshed_file
  refreshed-IsProved file fields f = reconciled o (record f {
    content_hash = file.content_hash;
    frontmatter = frontmatter_text o file;
    file_size = file.file_size;
    computed_fields = fields;
  })

  refresh-IsProved :
      (file : MarkdownFile) (s : IndexState o)
      → IsProved o s
      → IsProved o (refresh_source_metadata o file s).0
  unfolding refresh_source_metadata
  refresh-IsProved file s all =
      let path = to_slash file.path in
      elim (Option-cases (lookup path s.metadata.files)) [
        | inl absent ↦ rw (absent, refresh_source_metadata) all
        | inr (f, found) ↦
            rw (found, refresh_source_metadata)
              (insert-FilesAreProved o path (refreshed_file o file f.computed_fields f)
                s.metadata.files all (refreshed-IsProved file f.computed_fields f))
      ]

  apply-IsProved :
      (expected : Text) (file : MarkdownFile) (fields : ComputedFields o) (s : IndexState o)
      → IsProved o s
      → IsProved o (apply_module_source_state o expected file fields s).0
  unfolding apply_module_source_state
  apply-IsProved expected file fields s all =
      let path = to_slash file.path in
      elim (Option-cases (lookup path s.metadata.files)) [
        | inl absent ↦ rw (absent, apply_module_source_state) all
        | inr (f, found) ↦ elim (Bool-cases (text_eq f.content_hash expected)) [
          | inr changed ↦ rw (found, changed, apply_module_source_state) all
          | inl same ↦
              rw (found, same, apply_module_source_state)
                (insert-FilesAreProved o path (refreshed_file o file fields f) s.metadata.files all
                  (refreshed-IsProved file fields f))
        ]
      ]

  All-filter :
      {A : Type 0} (P : A → Type 0) (p : A → Bool) (xs : List A) → All P xs → All P (filter p xs)
  All-filter P p [] h = tt
  All-filter P p (x ∷ xs) h = elim (Bool-cases (p x)) [
    | inl kept ↦ rw kept (h.0, All-filter P p xs h.1)
    | inr gone ↦ rw gone (All-filter P p xs h.1)
  ]

  clear_files-FilesAreProved :
      (owner : Text) (scope : Option Text) (files : List (Text × StoredFile o))
      → FilesAreProved o files
      → FilesAreProved o (clear_files o owner scope files).0
  unfolding clear_files
  clear_files-FilesAreProved owner scope [] all = tt
  clear_files-FilesAreProved owner scope ((path, f) ∷ files) all =
      let rest = clear_files-FilesAreProved owner scope files all.1 in
      elim (Bool-cases (in_scope o scope path)) [
        | inl inside ↦
            rw (inside, clear_files)
              (
                All-filter (λ p. EntryIsProved o f.frontmatter p.0 p.1)
                    (λ p. not (text_eq p.1.module_name owner)) f.computed_fields all.0,
                rest,
              )
        | inr outside ↦ rw (outside, clear_files) (all.0, rest)
      ]

  clear-IsProved :
      (owner : Text) (scope : Option Text) (s : IndexState o)
      → IsProved o s
      → IsProved o (clear_computed_fields_for_module o owner scope s).0
  unfolding clear_computed_fields_for_module
  clear-IsProved owner scope s all = clear_files-FilesAreProved owner scope s.metadata.files all

  reset-IsProved :
      (now : ℕ) (config : EmbeddingConfig) (s : IndexState o)
      → IsProved o s
      → IsProved o (reset_embedding_space o now config s).0
  unfolding reset_embedding_space
  reset-IsProved now config s all = elim (Bool-cases (config.dimensions == 0)) [
    | inl unresolved ↦ rw (unresolved, reset_embedding_space) all
    | inr resolved ↦ elim (Result-cases (o.create_hnsw config.dimensions)) [
      | inl (h, made) ↦ rw (resolved, made, reset_embedding_space) tt
      | inr (e, failed) ↦ rw (resolved, failed, reset_embedding_space) all
    ]
  ]

  save-files :
      (now : ℕ) (write : IndexMetadata o → o.Hnsw → Result Error (Unit {0})) (s : IndexState o)
      → (save o now write s).0.metadata ≡ record s.metadata { last_updated = now }
  unfolding save cleaned
  save-files now write s =
      let t = record s { metadata = record s.metadata { last_updated = now } } in
      let kept = forget_vectors-metadata o (orphaned o t) t in
      elim (Result-cases (compacted o (cleaned o now s))) [
        | inr (e, failed) ↦ rw (failed, save) kept
        | inl (c, made) ↦ elim (Result-cases (write (cleaned o now s).metadata c.new_hnsw)) [
          | inr (e, failed) ↦ rw (made, failed, save) kept
          | inl (ended, written) ↦ rw (made, written, save) kept
        ]
      ]

  -- Every write operation of the index, whatever its arguments and whether it succeeds or fails,
  -- keeps this: an entry of a file's computed fields that has a proof of materialization has one
  -- that matches the frontmatter stored with it.
  Step-IsProved : {s t : IndexState o} → Step s t → IsProved o s → IsProved o t
  unfolding update_clusters update_custom_clusters update_link_graph set_schema set_scoped_schemas
  Step-IsProved (by_reset now config s) all = reset-IsProved now config s all
  Step-IsProved (by_upsert now file cs vs s) all = upsert-IsProved o now file cs vs s all
  Step-IsProved (by_insert_unembedded now file s) all = insert_unembedded-IsProved now file s all
  Step-IsProved (by_upsert_edges edges s) all =
      subst (λ m. FilesAreProved o m.files) (sym (upsert_edges-metadata edges s)) all
  Step-IsProved (by_remove_file path s) all = remove_file-IsProved path s all
  Step-IsProved (by_replace_computed_fields path fields s) all = replace-IsProved path fields s all
  Step-IsProved (by_refresh file s) all = refresh-IsProved file s all
  Step-IsProved (by_apply expected file fields s) all = apply-IsProved expected file fields s all
  Step-IsProved (by_clear owner scope s) all = clear-IsProved owner scope s all
  Step-IsProved (by_update_clusters c s) all = all
  Step-IsProved (by_update_custom_clusters c s) all = all
  Step-IsProved (by_update_link_graph g s) all = all
  Step-IsProved (by_set_schema c s) all = all
  Step-IsProved (by_set_scoped_schemas c s) all = all
  Step-IsProved (by_save now write s) all =
      subst (λ m. FilesAreProved o m.files) (sym (save-files now write s)) all

  -- After any sequence of write operations on an index that had the property, among them failed
  -- ones, every proof of materialization in the index matches the frontmatter stored with it.
  pub Steps-IsProved : {s t : IndexState o} → Steps s t → IsProved o s → IsProved o t
  Steps-IsProved (done s) all = all
  Steps-IsProved (step one rest) all = Steps-IsProved rest (Step-IsProved one all)
