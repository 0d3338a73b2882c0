-- ===== src/Index/Vectors.antt =====
-- The operations of src/index/state.rs that change vectors: `upsert`, `upsert_edges` and
-- `remove_file`. An operation passes the state on, also where it fails half way.
pub mod View
pub mod Forget
pub mod Insert
pub mod ForgetFile
pub mod Upsert
pub mod Complete
pub mod Edges
use package.markdown_vdb.Base.{
  ℕ, zero, suc, ◌+◌, ◌*◌, max, Bool, true, false, ◌&&◌, not, List, [], ◌∷◌, ◌++◌, map, filter,
  Option, none, some, Text, text_key, text_eq, length, ltb, if◌then◌else◌,
}
use package.markdown_vdb.Base.Strings.{codes, starts_with}
use package.markdown_vdb.Base.Map.{lookup, insert, remove, contains}
use package.markdown_vdb.Base.Result.{Result, ok, err}
use package.markdown_vdb.Parser.{MarkdownFile}
use package.markdown_vdb.PathUtil.{to_slash}
use package.markdown_vdb.Chunker.{Chunk}
use package.markdown_vdb.Index.{
  stored_file, reconcile_materialized_proofs, Error, serialization, panicked, Outside, StoredChunk,
  stored_chunk, ComputedFieldEntry, ComputedFields, StoredFile, IndexMetadata, IndexState, Outcome,
}

abbrev pub keys_of : {V : Type 0} → List (Text × V) → List Text
keys_of m = map (λ p. p.0) m

-- `.get_or_insert_with(HashMap::new).insert(path, time)`.
abbrev pub set_mtime : Text → ℕ → Option (List (Text × ℕ)) → Option (List (Text × ℕ))
set_mtime path time none = some (insert path time [])
set_mtime path time (some m) = some (insert path time m)

module _ (o : Outside) where
  -- `if let Some(key) = id_to_key.remove(id) { let _ = hnsw.remove(key); }`
  unfoldable pub forget_vector : Text → IndexState o → IndexState o
  unfolding lookup remove
  forget_vector id s = elim (lookup id s.id_to_key) [
    | none ↦ s
    | some key ↦ record s { id_to_key = remove id s.id_to_key; hnsw = o.delete key s.hnsw }
  ]

  unfoldable pub forget_vectors : List Text → IndexState o → IndexState o
  unfolding forget_vector
  forget_vectors [] s = s
  forget_vectors (id ∷ ids) s = forget_vectors ids (forget_vector id s)

  abbrev pub drop_chunk : Text → IndexState o → IndexState o
  drop_chunk id s = record s {
    metadata = record s.metadata { chunks = remove id s.metadata.chunks };
  }

  -- The loop over the chunks of a file that goes.
  pub forget_chunks : List Text → IndexState o → IndexState o
  unfolding forget_vector remove
  forget_chunks [] s = s
  forget_chunks (id ∷ ids) s = forget_chunks ids (drop_chunk id (forget_vector id s))

  abbrev pub usearch_error : Text → Text → Error
  usearch_error what e = serialization (codes "usearch " ++ (what ++ (codes ": " ++ e)))

  -- Room for `count` vectors more.
  pub ensure_capacity : ℕ → o.Hnsw → Result Error o.Hnsw
  ensure_capacity count h =
      let needed = o.size h + count in
      let reserved : Result Error o.Hnsw = elim (o.reserve (max needed (o.size h * 2)) h) [
        | ok grown ↦ ok grown
        | err e ↦ err (usearch_error (codes "reserve") e)
      ] in
      if ltb (o.capacity h) needed then reserved else ok h

  -- A key is taken, and the vector added under it.
  unfoldable pub add_vector : Text → o.Vector → IndexState o → Outcome o Unit
  unfolding insert
  add_vector id v s = elim (o.add s.next_key v s.hnsw) [
    | err e ↦ (record s { next_key = s.next_key + 1 }, err (usearch_error (codes "add") e))
    | ok grown ↦ (
      record s {
        hnsw = grown;
        id_to_key = insert id s.next_key s.id_to_key;
        next_key = s.next_key + 1;
      },
      ok tt,
    )
  ]

  abbrev pub put_chunk : Chunk → IndexState o → IndexState o
  put_chunk c s = record s {
    metadata = record s.metadata { chunks = insert c.id (stored_chunk c) s.metadata.chunks };
  }

  -- The loop over the new chunks; `embeddings[i]` panics where there is none.
  unfoldable pub insert_chunks :
      List Chunk → List o.Vector → IndexState o → StoredFile o → Outcome o (StoredFile o)
  unfolding add_vector stored_chunk insert
  insert_chunks [] embeddings s f = (s, ok f)
  insert_chunks (c ∷ cs) [] s f = (record s { next_key = s.next_key + 1 }, err panicked)
  insert_chunks (c ∷ cs) (v ∷ vs) s f =
      let added = add_vector c.id v s in
      elim added.1 [
        | err e ↦ (added.0, err e)
        | ok done ↦
            insert_chunks cs vs (put_chunk c added.0)
              (record f { chunk_ids = f.chunk_ids ++ c.id ∷ [] })
      ]

  -- `state.metadata.files.remove` with the loop behind it; the result is the file's old computed
  -- fields.
  unfoldable pub forget_file : Text → IndexState o → IndexState o × ComputedFields o
  unfolding forget_chunks lookup remove
  forget_file path s =
      let rest = record s {
        metadata = record s.metadata { files = remove path s.metadata.files };
      } in
      elim (lookup path s.metadata.files) [
        | none ↦ (s, [])
        | some old ↦ (forget_chunks old.chunk_ids rest, old.computed_fields)
      ]

  -- The last lines of `upsert`.
  unfoldable pub store_file : Text → ℕ → StoredFile o → IndexState o → IndexState o
  unfolding insert
  store_file path modified_at f s = record s {
    metadata = record s.metadata {
      files = insert path f s.metadata.files;
      file_mtimes = set_mtime path modified_at s.metadata.file_mtimes;
    };
    dirty = true;
  }

  unfoldable pub upsert :
      ℕ → MarkdownFile → List Chunk → List o.Vector → IndexState o → Outcome o Unit
  unfolding forget_file ensure_capacity insert_chunks store_file stored_file
      reconcile_materialized_proofs to_slash
  upsert now file chunks embeddings s =
      let path = to_slash file.path in
      let old = forget_file path s in
      let new_file =
        reconcile_materialized_proofs o
          (record (stored_file o now file) { computed_fields = old.1 }) in
      elim (ensure_capacity (length chunks) old.0.hnsw) [
        | err e ↦ (old.0, err e)
        | ok grown ↦
            let inserted =
              insert_chunks chunks embeddings (record old.0 { hnsw = grown }) new_file in
            elim inserted.1 [
              | err e ↦ (inserted.0, err e)
              | ok f ↦ (store_file path file.modified_at f inserted.0, ok tt)
            ]
      ]

  -- The loop over the new edges.
  unfoldable pub insert_edges : List (Text × o.Vector) → IndexState o → Outcome o Unit
  unfolding add_vector
  insert_edges [] s = (s, ok tt)
  insert_edges ((id, v) ∷ edges) s =
      let added = add_vector id v s in
      elim added.1 [ err e ↦ (added.0, err e) | ok done ↦ insert_edges edges added.0 ]

  unfoldable pub upsert_edges : List (Text × o.Vector) → IndexState o → Outcome o Unit
  unfolding forget_vectors ensure_capacity insert_edges
  upsert_edges edges s =
      let old = forget_vectors (keys_of edges) s in
      elim (ensure_capacity (length edges) old.hnsw) [
        | err e ↦ (old, err e)
        | ok grown ↦
            let inserted = insert_edges edges (record old { hnsw = grown }) in
            elim inserted.1 [
              | err e ↦ (inserted.0, err e)
              | ok done ↦ (record inserted.0 { dirty = true }, ok tt)
            ]
      ]

  abbrev pub edge_prefix : Text → Text
  edge_prefix path = codes "edge:" ++ (path ++ codes "->")

  abbrev pub remove_mtime : Text → Option (List (Text × ℕ)) → Option (List (Text × ℕ))
  remove_mtime path none = none
  remove_mtime path (some m) = some (remove path m)

  -- `remove_file` for a file that is there.
  unfoldable pub remove_present : Text → StoredFile o → IndexState o → IndexState o
  unfolding forget_chunks forget_vectors remove starts_with
  remove_present path file s =
      let rest = record s {
        metadata = record s.metadata { files = remove path s.metadata.files };
      } in
      let t = forget_chunks file.chunk_ids rest in
      let edges = filter (starts_with (edge_prefix path)) (keys_of t.id_to_key) in
      let u = forget_vectors edges t in
      record u {
        metadata = record u.metadata { file_mtimes = remove_mtime path u.metadata.file_mtimes };
        dirty = true;
      }

  unfoldable pub remove_file : Text → IndexState o → Outcome o Unit
  unfolding remove_present lookup
  remove_file relative_path s = elim (lookup relative_path s.metadata.files) [
    | none ↦ (s, ok tt)
    | some file ↦ (remove_present relative_path file s, ok tt)
  ]
