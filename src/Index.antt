-- ===== src/Index.antt =====
-- src/index/types.rs and src/error.rs: what the index stores, and the errors of its operations.
pub mod Vectors
pub mod Save
pub mod Metadata
pub mod Storage
pub mod Search
mod Tests
use package.markdown_vdb.Base.{
  ℕ, Bool, true, false, List, [], ◌∷◌, Option, none, some, Text, if◌then◌else◌,
}
use package.markdown_vdb.Base.Result.{Result, ok, err}
use package.markdown_vdb.Parser.{MarkdownFile}
use package.markdown_vdb.PathUtil.{to_slash}
use package.markdown_vdb.Chunker.{Chunk}
use package.markdown_vdb.Links.{LinkGraph}

-- The errors that the operations below give; `panicked` stands for a slice index out of range.
pub data Error : Type 0 where
  serialization config_error index_corrupted : Text → Error
  index_not_found index_dirty index_busy : Text → Error
  file_not_in_index source_changed : Text → Error
  version_mismatch : ℕ → Error
  io_error : ℕ → Error
  panicked : Error

-- What is not of this component: values that the index stores without looking into them, the
-- vector index of `usearch`, JSON values of `serde_json`, and the hash of a text.
pub record Outside : Type 1 where
  pub Vector : Type 0
  pub Hnsw : Type 0
  pub Json : Type 0
  pub Schema : Type 0
  pub ScopedSchema : Type 0
  pub ClusterState : Type 0
  pub CustomClusterState : Type 0
  pub SemanticEdge : Type 0
  pub EdgeClusterState : Type 0
  pub DependencySnapshot : Type 0
  pub Diagnostic : Type 0
  pub create_hnsw : ℕ → Result Text Hnsw
  pub size : Hnsw → ℕ
  pub capacity : Hnsw → ℕ
  pub reserve : ℕ → Hnsw → Result Text Hnsw
  pub add : ℕ → Vector → Hnsw → Result Text Hnsw
  pub delete : ℕ → Hnsw → Hnsw
  -- The vector that is stored under a key.
  pub get : ℕ → Hnsw → Option Vector
  -- `hnsw.get(key, &mut buf)`: whether it is `Ok`, and what it leaves in a buffer with this content.
  pub get_into : ℕ → Hnsw → Vector → Bool × Vector
  -- `vec![0.0; dims]`.
  pub zero_vector : ℕ → Vector
  pub frontmatter : MarkdownFile → Option Json
  pub json_to_string : Json → Option Text
  pub json_from_str : Text → Option Json
  -- `as_object`, and then `get`.
  pub json_field : Json → Text → Option Json
  pub json_eq : Json → Json → Bool
  pub compute_content_hash : Text → Text

pub record EmbeddingConfig : Type 0 where
  pub provider : Text
  pub model : Text
  pub dimensions : ℕ

pub record StoredChunk : Type 0 where
  pub source_path : Text
  pub heading_hierarchy : List Text
  pub content : Text
  pub start_line : ℕ
  pub end_line : ℕ
  pub chunk_index : ℕ
  pub is_sub_split : Bool

-- `StoredChunk::from`.
pub stored_chunk : Chunk → StoredChunk
unfolding to_slash
stored_chunk chunk = record {
  source_path = to_slash chunk.source_path;
  heading_hierarchy = chunk.heading_hierarchy;
  content = chunk.content;
  start_line = chunk.start_line;
  end_line = chunk.end_line;
  chunk_index = chunk.chunk_index;
  is_sub_split = chunk.is_sub_split;
}

pub record ComputedFieldEntry (o : Outside) : Type 0 where
  pub module_name : Text
  pub definition_fingerprint : Text
  pub input_fingerprint : Option Text
  pub dependency_snapshot : o.DependencySnapshot
  pub value_json : Option Text
  pub materialized_value_json : Option Text
  pub diagnostic : Option o.Diagnostic

abbrev pub ComputedFields : Outside → Type 0
ComputedFields o = List (Text × ComputedFieldEntry o)

pub record StoredFile (o : Outside) : Type 0 where
  pub relative_path : Text
  pub content_hash : Text
  pub embedding_body_hash : Text
  pub frontmatter : Option Text
  pub file_size : ℕ
  pub chunk_ids : List Text
  pub indexed_at : ℕ
  pub computed_fields : ComputedFields o

pub record IndexMetadata (o : Outside) : Type 0 where
  pub chunks : List (Text × StoredChunk)
  pub files : List (Text × StoredFile o)
  pub embedding_config : EmbeddingConfig
  pub last_updated : ℕ
  pub schema : Option o.Schema
  pub cluster_state : Option o.ClusterState
  pub link_graph : Option (LinkGraph (List (Text × o.SemanticEdge)) o.EdgeClusterState)
  pub file_mtimes : Option (List (Text × ℕ))
  pub scoped_schemas : Option (List o.ScopedSchema)
  pub custom_cluster_state : Option o.CustomClusterState

-- `IndexState`, the state behind the lock. Keys are 64 bits wide, and as one is taken for each
-- vector added, they do not run out.
pub record IndexState (o : Outside) : Type 0 where
  pub metadata : IndexMetadata o
  pub hnsw : o.Hnsw
  pub id_to_key : List (Text × ℕ)
  pub next_key : ℕ
  pub dirty : Bool

-- What an operation leaves and returns.
abbrev pub Outcome : Outside → Type 0 → Type 0
Outcome o A = IndexState o × Result Error A

module _ (o : Outside) where
  -- `and_then(|value| to_string(value).ok())` on the frontmatter of a file.
  pub frontmatter_text : MarkdownFile → Option Text
  frontmatter_text file = elim (o.frontmatter file) [ none ↦ none | some v ↦ o.json_to_string v ]

  -- `StoredFile::from`; `now` is the clock.
  pub stored_file : ℕ → MarkdownFile → StoredFile o
  unfolding frontmatter_text to_slash
  stored_file now file = record {
    relative_path = to_slash file.path;
    content_hash = file.content_hash;
    embedding_body_hash = o.compute_content_hash file.body;
    frontmatter = frontmatter_text file;
    file_size = file.file_size;
    chunk_ids = [];
    indexed_at = now;
    computed_fields = [];
  }

  -- Whether the frontmatter has the value that an entry was materialized as.
  pub proof_matches : Option Text → Text → ComputedFieldEntry o → Bool
  proof_matches frontmatter field entry = elim entry.materialized_value_json [
    | none ↦ false
    | some raw ↦ elim (o.json_from_str raw) [
      | none ↦ false
      | some expected ↦ elim frontmatter [
        | none ↦ false
        | some text ↦ elim (o.json_from_str text) [
          | none ↦ false
          | some value ↦ elim (o.json_field value field) [
            | none ↦ false
            | some actual ↦ o.json_eq actual expected
          ]
        ]
      ]
    ]
  ]

  pub reconcile_fields : Option Text → ComputedFields o → ComputedFields o
  unfolding proof_matches
  reconcile_fields frontmatter [] = []
  reconcile_fields frontmatter ((field, entry) ∷ fields) =
      let kept = (field, entry) ∷ reconcile_fields frontmatter fields in
      let dropped =
        (field, record entry { materialized_value_json = none })
        ∷ reconcile_fields frontmatter fields in
      if proof_matches frontmatter field entry then kept else dropped

  pub reconcile_materialized_proofs : StoredFile o → StoredFile o
  unfolding reconcile_fields
  reconcile_materialized_proofs f = record f {
    computed_fields = reconcile_fields f.frontmatter f.computed_fields;
  }
