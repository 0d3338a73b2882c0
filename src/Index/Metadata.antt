-- ===== src/Index/Metadata.antt =====
-- The operations of src/index/state.rs that change metadata only, the counts, and the opening of
-- an index. The clock `now` and the file's state on disk are arguments.
pub mod Proofs
pub mod Kept
pub mod Transacts
pub mod Steps
use package.markdown_vdb.Base.{
  ℕ, zero, suc, ◌+◌, ◌-◌, Bool, true, false, ◌&&◌, not, List, [], ◌∷◌, ◌++◌, map, filter, Option,
  none, some, Text, text_key, text_eq, length, ltb, ◌==◌, if◌then◌else◌,
}
use package.markdown_vdb.Base.Strings.{codes, starts_with, strip_prefix, decimal}
use package.markdown_vdb.Base.Map.{lookup, insert, contains}
use package.markdown_vdb.Base.Result.{Result, ok, err}
use package.markdown_vdb.Parser.{MarkdownFile}
use package.markdown_vdb.PathUtil.{to_slash, path_is_in_scope}
use package.markdown_vdb.Links.{LinkGraph}
use package.markdown_vdb.Index.{
  Error, serialization, config_error, index_corrupted, index_not_found, version_mismatch,
  file_not_in_index, source_changed, Outside, EmbeddingConfig, ComputedFieldEntry, ComputedFields,
  StoredFile, IndexMetadata, IndexState, Outcome,
}
use package.markdown_vdb.Index.Vectors.{keys_of, set_mtime, usearch_error}
use package.markdown_vdb.Index.{frontmatter_text, stored_file, reconcile_materialized_proofs}

module _ (o : Outside) where
  -- The metadata of an index without files.
  abbrev pub empty_metadata : ℕ → EmbeddingConfig → IndexMetadata o
  empty_metadata now config = record {
    chunks = [];
    files = [];
    embedding_config = config;
    last_updated = now;
    schema = none;
    cluster_state = none;
    link_graph = none;
    file_mtimes = some [];
    scoped_schemas = none;
    custom_cluster_state = none;
  }

  unfoldable pub reset_embedding_space : ℕ → EmbeddingConfig → IndexState o → Outcome o Unit
  reset_embedding_space now config s =
      let reset : Outcome o Unit = elim (o.create_hnsw config.dimensions) [
        | err e ↦ (s, err (serialization (codes "failed to create HNSW index: " ++ e)))
        | ok h ↦ (
          record {
            metadata = empty_metadata now config;
            hnsw = h;
            id_to_key = [];
            next_key = 0;
            dirty = true;
          },
          ok tt,
        )
      ] in
      if config.dimensions == 0
      then (s, err (config_error (codes "cannot initialize an index with unresolved dimensions")))
      else reset

  -- A file is put into the table, with the time of its modification.
  abbrev pub put_file : Text → ℕ → StoredFile o → IndexState o → IndexState o
  put_file path modified_at f s = record s {
    metadata = record s.metadata {
      file_mtimes = set_mtime path modified_at s.metadata.file_mtimes;
      files = insert path f s.metadata.files;
    };
    dirty = true;
  }

  unfoldable pub insert_unembedded_source_metadata :
      ℕ → MarkdownFile → IndexState o → Outcome o Unit
  unfolding stored_file to_slash contains insert
  insert_unembedded_source_metadata now file s =
      let path = to_slash file.path in
      if contains path (keys_of s.metadata.files)
      then (
        s,
        err (
            config_error (
              codes "cannot insert provisional source metadata for existing file `"
              ++ (path ++ codes "`"))),
      )
      else (
        put_file path file.modified_at
            (record (stored_file o now file) { embedding_body_hash = [] }) s,
        ok tt,
      )

  -- The file of the entry that `get_mut` gives is replaced.
  abbrev pub set_file : Text → StoredFile o → IndexState o → IndexState o
  set_file path f s = record s {
    metadata = record s.metadata { files = insert path f s.metadata.files };
    dirty = true;
  }

  unfoldable pub replace_computed_fields : Text → ComputedFields o → IndexState o → Outcome o Unit
  unfolding lookup insert reconcile_materialized_proofs
  replace_computed_fields path fields s = elim (lookup path s.metadata.files) [
    | none ↦ (s, err (file_not_in_index path))
    | some f ↦ (
      set_file path (reconcile_materialized_proofs o (record f { computed_fields = fields })) s,
      ok tt,
    )
  ]

  -- The stored file with the source's hash, frontmatter and size, and these computed fields.
  pub refreshed_file : MarkdownFile → ComputedFields o → StoredFile o → StoredFile o
  unfolding frontmatter_text reconcile_materialized_proofs
  refreshed_file file fields f = reconcile_materialized_proofs o (record f {
    content_hash = file.content_hash;
    frontmatter = frontmatter_text o file;
    file_size = file.file_size;
    computed_fields = fields;
  })

  unfoldable pub refresh_source_metadata : MarkdownFile → IndexState o → Outcome o Unit
  unfolding refreshed_file lookup insert to_slash
  refresh_source_metadata file s =
      let path = to_slash file.path in
      elim (lookup path s.metadata.files) [
        | none ↦ (s, err (file_not_in_index path))
        | some f ↦
            (put_file path file.modified_at (refreshed_file file f.computed_fields f) s, ok tt)
      ]

  unfoldable pub apply_module_source_state :
      Text → MarkdownFile → ComputedFields o → IndexState o → Outcome o Unit
  unfolding refreshed_file lookup insert to_slash text_eq
  apply_module_source_state expected_content_hash file fields s =
      let path = to_slash file.path in
      elim (lookup path s.metadata.files) [
        | none ↦ (s, err (file_not_in_index path))
        | some f ↦
            if text_eq f.content_hash expected_content_hash
            then (put_file path file.modified_at (refreshed_file file fields f) s, ok tt)
            else (s, err (source_changed path))
      ]

  abbrev pub in_scope : Option Text → Text → Bool
  in_scope none path = true
  in_scope (some scope) path = path_is_in_scope path scope

  -- The loop of `clear_computed_fields_for_module`, with the number of removed entries.
  pub clear_files : Text → Option Text → List (Text × StoredFile o) → List (Text × StoredFile o) × ℕ
  unfolding path_is_in_scope text_eq
  clear_files owner scope [] = ([], 0)
  clear_files owner scope ((path, f) ∷ files) =
      let rest = clear_files owner scope files in
      let kept = filter (λ p. not (text_eq p.1.module_name owner)) f.computed_fields in
      if in_scope scope path
      then (
        (path, record f { computed_fields = kept }) ∷ rest.0,
        rest.1 + (length f.computed_fields - length kept),
      )
      else ((path, f) ∷ rest.0, rest.1)

  unfoldable pub clear_computed_fields_for_module :
      Text → Option Text → IndexState o → IndexState o × ℕ
  unfolding clear_files
  clear_computed_fields_for_module owner scope s =
      let cleared = clear_files owner scope s.metadata.files in
      (
        record s {
          metadata = record s.metadata { files = cleared.0 };
          dirty = if ltb 0 cleared.1 then true else s.dirty;
        },
        cleared.1,
      )

  unfoldable pub update_clusters : Option o.ClusterState → IndexState o → IndexState o
  update_clusters c s = record s {
    metadata = record s.metadata { cluster_state = c };
    dirty = true;
  }

  unfoldable pub update_custom_clusters : Option o.CustomClusterState → IndexState o → IndexState o
  update_custom_clusters c s = record s {
    metadata = record s.metadata { custom_cluster_state = c };
    dirty = true;
  }

  unfoldable pub update_link_graph :
      Option (LinkGraph (List (Text × o.SemanticEdge)) o.EdgeClusterState)
      → IndexState o
      → IndexState o
  update_link_graph g s = record s { metadata = record s.metadata { link_graph = g }; dirty = true }

  unfoldable pub set_schema : Option o.Schema → IndexState o → IndexState o
  set_schema schema s = record s { metadata = record s.metadata { schema = schema }; dirty = true }

  unfoldable pub set_scoped_schemas : Option (List o.ScopedSchema) → IndexState o → IndexState o
  set_scoped_schemas schemas s = record s {
    metadata = record s.metadata { scoped_schemas = schemas };
    dirty = true;
  }

  unfoldable pub check_config_compatibility :
      EmbeddingConfig → IndexState o → Result Error (Unit {0})
  unfolding text_eq decimal
  check_config_compatibility config s =
      let existing = s.metadata.embedding_config in
      let models : Result Error (Unit {0}) =
        if text_eq existing.model config.model
        then ok tt
        else err (
            index_corrupted (
              codes "model mismatch: index has '"
              ++ (existing.model ++ (codes "', config has '" ++ (config.model ++ codes "'"))))) in
      if existing.dimensions == config.dimensions
      then models
      else err (
          index_corrupted (
            codes "dimension mismatch: index has "
            ++ (decimal existing.dimensions
                ++ (codes ", config has " ++ decimal config.dimensions))))

  -- `create_with_options`.
  pub create :
      ℕ
      → EmbeddingConfig
      → (IndexMetadata o → o.Hnsw → Result Error (Unit {0}))
      → Result Error (IndexState o)
  create now config write = elim (o.create_hnsw config.dimensions) [
    | err e ↦ err (serialization (codes "failed to create HNSW index: " ++ e))
    | ok h ↦ elim (o.reserve 10 h) [
      | err e ↦ err (usearch_error o (codes "reserve") e)
      | ok grown ↦ elim (write (empty_metadata now config) grown) [
        | err e ↦ err e
        | ok done ↦ ok (record {
          metadata = empty_metadata now config;
          hnsw = grown;
          id_to_key = [];
          next_key = 0;
          dirty = false;
        })
      ]
    ]
  ]

  -- Whether an index that cannot be opened is created anew.
  abbrev pub is_rebuilt : Error → Bool
  is_rebuilt (index_not_found path) = true
  is_rebuilt (version_mismatch version) = true
  is_rebuilt (index_corrupted what) = true
  is_rebuilt e = false

  -- `open_or_create_with_options_report_and_rebuild_hook`: `opened` is the outcome of opening,
  -- `before_rebuild` the hook's, and `created` that of creating the index.
  unfoldable pub open_or_create :
      Result Error (IndexState o)
      → Result Error (Unit {0})
      → Result Error (IndexState o)
      → Result Error (IndexState o × Bool)
  open_or_create (ok s) before_rebuild created = ok (s, false)
  open_or_create (err e) before_rebuild created =
      let rebuilt : Result Error (IndexState o × Bool) = elim before_rebuild [
        | err f ↦ err f
        | ok done ↦ elim created [ err f ↦ err f | ok s ↦ ok (s, true) ]
      ] in
      if is_rebuilt e then rebuilt else err e
