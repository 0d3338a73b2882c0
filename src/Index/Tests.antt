-- ===== src/Index/Tests.antt =====
-- A vector index as a list of keys and vectors, and the theorems of the index's state on it.
pub mod Vectors
pub mod Metadata
pub mod Storage
pub mod Search
use markdown_vdb.Base.{
  ℕ, zero, suc, ◌+◌, max, ◌≤◌, ◌<◌, Bool, true, false, ◌&&◌, List, [], ◌∷◌, ◌++◌, Option, none,
  some, Text, text_key, text_eq, text_eq_iff, is_empty, length, ltb, ◌==◌, ◌≡◌, ◌≢◌, refl, sym, ◌∙◌,
  ap, arith, inl, inr, ◌⊎◌, ◌↔◌, if◌then◌else◌, Bool-cases, Option-cases, Key,
}
use markdown_vdb.Base.Strings.{codes}
use markdown_vdb.Base.Map.{lookup, insert, remove, contains, lookup-remove}
use markdown_vdb.Base.Result.{Result, ok, err}
use markdown_vdb.Parser.{MarkdownFile}
use markdown_vdb.Chunker.{Chunk}
use markdown_vdb.Index.{
  Error, Outside, EmbeddingConfig, IndexState, IndexMetadata, StoredFile, ComputedFieldEntry,
  Outcome, stored_chunk,
}
use markdown_vdb.Index.Vectors.{keys_of}
use markdown_vdb.Index.Vectors.View.{Laws, view, IsValid, IsComplete}

pub number_same_iff : (a b : ℕ) → ((a == b) ≡ true) ↔ (a ≡ b)
number_same_iff a b = ground arith

instance abbrev pub number_key : Key ℕ
number_key = record { same = λ a b. a == b; same_iff = number_same_iff }

pub record Graph : Type 0 where
  pub room : ℕ
  pub vectors : List (ℕ × ℕ)

abbrev pub is_none : Option ℕ → Bool
is_none none = true
is_none (some v) = false

abbrev pub add : ℕ → ℕ → Graph → Result Text Graph
add k v g =
    if ltb (length g.vectors) g.room && is_none (lookup k g.vectors)
    then ok (record g { vectors = (k, v) ∷ g.vectors })
    else err (codes "add")

-- A missing key leaves the buffer as it is, without an error.
abbrev pub or_buffer : ℕ → Option ℕ → ℕ
or_buffer buf none = buf
or_buffer buf (some v) = v

-- JSON is a text here, and an object has the field `total` alone.
abbrev pub outside : Outside
outside = record {
  Vector = ℕ;
  Hnsw = Graph;
  Json = Text;
  Schema = ℕ;
  ScopedSchema = ℕ;
  ClusterState = ℕ;
  CustomClusterState = ℕ;
  SemanticEdge = ℕ;
  EdgeClusterState = ℕ;
  DependencySnapshot = ℕ;
  Diagnostic = ℕ;
  create_hnsw = λ d. ok (record { room = 0; vectors = [] });
  size = λ g. length g.vectors;
  capacity = λ g. g.room;
  reserve = λ n g. if ltb 100 n then err (codes "full") else ok (record g { room = max n g.room });
  add = add;
  delete = λ k g. record g { vectors = remove k g.vectors };
  get = λ k g. lookup k g.vectors;
  get_into = λ k g buf. (true, or_buffer buf (lookup k g.vectors));
  zero_vector = λ d. 0;
  frontmatter = λ f. if is_empty f.content_hash then none else some f.content_hash;
  json_to_string = λ j. some j;
  json_from_str = λ t. some t;
  json_field = λ j f. if text_eq f (codes "total") then some j else none;
  json_eq = λ a b. text_eq a b;
  compute_content_hash = λ t. t;
}

same_ok : (g h : Graph) → ◌≡◌ {A = Result Text Graph} (ok g) (ok h) → g ≡ h
same_ok g h e = cc e

reserved : (n : ℕ) (h g : Graph) → outside.reserve n h ≡ ok g → record h { room = max n h.room } ≡ g
reserved n h g e = elim (Bool-cases (ltb 100 n)) [
  | inl full ↦ absurd (cc (rw full at e))
  | inr fine ↦ same_ok (record h { room = max n h.room }) g (rw fine at e)
]

added : (k v : ℕ) (h g : Graph) → add k v h ≡ ok g → record h { vectors = (k, v) ∷ h.vectors } ≡ g
added k v h g e =
    elim (Bool-cases (ltb (length h.vectors) h.room && is_none (lookup k h.vectors))) [
      | inl fine ↦ same_ok (record h { vectors = (k, v) ∷ h.vectors }) g (rw fine at e)
      | inr refused ↦ absurd (cc (rw refused at e))
    ]

pub outside-Laws : Laws outside
unfolding lookup
outside-Laws = record {
  quantize = λ v. v;
  get_create = λ d k h e. rw (← same_ok (record { room = 0; vectors = [] }) h e) refl;
  size_create = λ d h e. rw (← same_ok (record { room = 0; vectors = [] }) h e) refl;
  get_reserve = λ n k h g e. rw (← reserved n h g e) refl;
  size_reserve = λ n h g e. rw (← reserved n h g e) refl;
  room_reserve = λ n h g e. rw (← reserved n h g e) (omega arith);
  get_add = λ k j v h g e. rw (← added k v h g e) refl;
  size_add = λ k v h g e. rw (← added k v h g e) (omega arith, refl);
  add_succeeds = λ k v h free room.
      let fits : ltb (length h.vectors) h.room ≡ true = ground (arith, room) in
      (record h { vectors = (k, v) ∷ h.vectors }, rw (fits, free) refl);
  get_into_found = λ k v buf h e. rw e refl;
  get_quantized = λ k v h e. refl;
  get_delete = λ k j h. lookup-remove k j h.vectors;
}

abbrev pub config : EmbeddingConfig
config = record { provider = codes "mock"; model = codes "m"; dimensions = 1 }

-- Two chunks of `a.md`, and an edge from it.
abbrev pub chunk : Text → ℕ → Chunk
chunk id index = record {
  id = id;
  source_path = codes "a.md";
  heading_hierarchy = [];
  content = codes "text";
  start_line = 1;
  end_line = 1;
  chunk_index = index;
  is_sub_split = false;
}

abbrev pub first : Text
first = codes "a.md#0"

abbrev pub second : Text
second = codes "a.md#1"

abbrev pub edge : Text
edge = codes "edge:a.md->b.md@1"

-- A field `total` with the proof that it was written as `5`.
abbrev pub entry : ComputedFieldEntry outside
entry = record {
  module_name = codes "formula";
  definition_fingerprint = [];
  input_fingerprint = none;
  dependency_snapshot = 0;
  value_json = some (codes "5");
  materialized_value_json = some (codes "5");
  diagnostic = none;
}

abbrev pub stored : StoredFile outside
stored = record {
  relative_path = codes "a.md";
  content_hash = codes "5";
  embedding_body_hash = codes "body";
  frontmatter = some (codes "5");
  file_size = 1;
  chunk_ids = first ∷ [];
  indexed_at = 0;
  computed_fields = (codes "total", entry) ∷ [];
}

-- `a.md` with one chunk, and an edge from it that the link graph tracks.
abbrev pub start : IndexState outside
start = record {
  metadata = record {
    chunks = (first, stored_chunk (chunk first 0)) ∷ [];
    files = (codes "a.md", stored) ∷ [];
    embedding_config = config;
    last_updated = 0;
    schema = none;
    cluster_state = none;
    link_graph = some (record {
      forward = [];
      last_updated = 0;
      semantic_edges = some ((edge, 0) ∷ []);
      edge_cluster_state = none;
    });
    file_mtimes = none;
    scoped_schemas = none;
    custom_cluster_state = none;
  };
  hnsw = record { room = 4; vectors = (3, 30) ∷ (2, 20) ∷ [] };
  id_to_key = (edge, 3) ∷ (first, 2) ∷ [];
  next_key = 4;
  dirty = false;
}

abbrev pub file : Text → MarkdownFile
file hash = record {
  path = codes "a.md";
  headings = [];
  body = codes "new body";
  content_hash = hash;
  file_size = 2;
  links = [];
  modified_at = 9;
  frontmatter_links = [];
}

start_keys :
    (id : Text) (k : ℕ)
    → lookup id start.id_to_key ≡ some k
    → ((id ≡ edge) × (k ≡ 3)) ⊎ ((id ≡ first) × (k ≡ 2))
unfolding lookup
start_keys id k p = elim (Bool-cases (text_eq edge id)) [
  | inl e ↦ inl (sym ((text_eq_iff edge id).0 e), sym (same_some 3 k (rw e at p)))
  | inr e ↦ elim (Bool-cases (text_eq first id)) [
    | inl f ↦ inr (sym ((text_eq_iff first id).0 f), sym (same_some 2 k (rw (e, f) at p)))
    | inr f ↦ absurd (cc (rw (e, f) at p))
  ]
]
  where
    same_some : (a b : ℕ) → ◌≡◌ {A = Option ℕ} (some a) (some b) → a ≡ b
    same_some a b q = cc q

pub start-IsValid : IsValid outside start
unfolding lookup
start-IsValid = record {
  below =
      λ id k p. elim (start_keys id k p) [ inl (a, b) ↦ omega arith | inr (a, b) ↦ omega arith ];
  distinct = λ i j k p q. elim (start_keys i k p) [
    | inl (a, b) ↦ elim (start_keys j k q) [
      | inl (c, d) ↦ a ∙ sym c
      | inr (c, d) ↦ absurd (omega arith)
    ]
    | inr (a, b) ↦ elim (start_keys j k q) [
      | inl (c, d) ↦ absurd (omega arith)
      | inr (c, d) ↦ a ∙ sym c
    ]
  ];
  free = λ k high. ground arith;
}

start_ids : (id : Text) → contains id (keys_of start.id_to_key) ≡ true → (id ≡ edge) ⊎ (id ≡ first)
unfolding contains
start_ids id h = elim (Bool-cases (text_eq edge id)) [
  | inl e ↦ inl (sym ((text_eq_iff edge id).0 e))
  | inr e ↦ elim (Bool-cases (text_eq first id)) [
    | inl f ↦ inr (sym ((text_eq_iff first id).0 f))
    | inr f ↦ absurd (cc (rw (e, f) at h))
  ]
]

start_chunk : (id : Text) → contains id (first ∷ []) ≡ true → id ≡ first
unfolding contains
start_chunk id h = elim (Bool-cases (text_eq first id)) [
  | inl f ↦ sym ((text_eq_iff first id).0 f)
  | inr f ↦ absurd (cc (rw f at h))
]

pub start-IsComplete : IsComplete outside start
unfolding lookup contains text_eq
start-IsComplete = record {
  vectors = λ id h. elim (start_ids id h) [ inl e ↦ rw e (30, refl) | inr f ↦ rw f (20, refl) ];
  chunks = λ id h. rw (start_chunk id h) refl;
}
