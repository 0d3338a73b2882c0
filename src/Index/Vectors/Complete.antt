-- ===== src/Index/Vectors/Complete.antt =====
-- The operations of src/index/state.rs that change vectors leave no key without a vector.
use markdown_vdb.Base.{
  ℕ, ◌≤◌, true, false, List, [], ◌∷◌, length, filter, Text, text_key, text_eq, text_eq_iff, ◌≡◌,
  ◌&&◌, not, if◌then◌else◌, refl, ◌∙◌, arith, inl, inr, Bool-cases, Option-cases, ◌++◌,
}
use markdown_vdb.Base.Strings.{starts_with}
use markdown_vdb.Base.Map.{lookup, remove, contains, contains-remove, contains-insert, unfound_key}
use markdown_vdb.Base.Result.{Result-cases}
use markdown_vdb.Parser.{MarkdownFile}
use markdown_vdb.PathUtil.{to_slash}
use markdown_vdb.Chunker.{Chunk}
use markdown_vdb.Index.{Outside, IndexState, StoredFile, stored_file, reconcile_materialized_proofs}
use markdown_vdb.Index.Vectors.{
  keys_of, forget_vector, forget_vectors, drop_chunk, forget_chunks, add_vector, put_chunk,
  insert_chunks, insert_edges, forget_file, store_file, upsert, upsert_edges, edge_prefix,
  remove_present, remove_file,
}
use markdown_vdb.Index.Vectors.View.{Laws, IsValid, HasVectors, HasRoom}
use markdown_vdb.Index.Vectors.Forget.{
  forget_vector-view, forget_vector-IsValid, forget_vectors-Forgets, forget_chunks-Forgets,
}
use markdown_vdb.Index.Vectors.ForgetFile.{forget_file-ForgetsFile}
use markdown_vdb.Index.Vectors.Insert.{
  Puts, add_vector-Puts, insert_chunks-Assigns, insert_edges-Assigns, ensure_capacity-HasRoom,
  grown-KeysAreValid, grown_view,
}

module _ (o : Outside) where
  forget_vector-keys :
      (id j : Text) (s : IndexState o)
      → contains j (keys_of (forget_vector o id s).id_to_key)
        ≡ (if text_eq id j then false else contains j (keys_of s.id_to_key))
  unfolding forget_vector
  forget_vector-keys id j s = elim (Option-cases (lookup id s.id_to_key)) [
    | inl absent ↦
        rw (absent, forget_vector)
          (ground (arith, unfound_key id s.id_to_key absent, text_eq_iff id j))
    | inr (k, found) ↦ rw (found, forget_vector) (contains-remove id j s.id_to_key)
  ]

  pub forget_vectors-keys :
      (ids : List Text) (j : Text) (s : IndexState o)
      → contains j (keys_of (forget_vectors o ids s).id_to_key)
        ≡ (contains j (keys_of s.id_to_key) && not (contains j ids))
  unfolding forget_vectors contains
  forget_vectors-keys [] j s = ground arith
  forget_vectors-keys (id ∷ ids) j s =
      ground (arith, forget_vectors-keys ids j (forget_vector o id s), forget_vector-keys id j s)

module _ (o : Outside) (laws : Laws o) where
  forget_vector-HasVectors :
      (i : Text) (s : IndexState o)
      → IsValid o s
      → HasVectors o s
      → HasVectors o (forget_vector o i s)
  forget_vector-HasVectors i s w full j h = elim (Bool-cases (text_eq i j)) [
    | inl same ↦ absurd (cc (h, rw same at (forget_vector-keys o i j s)))
    | inr other ↦
        let (v, held) = full j (ground (arith, forget_vector-keys o i j s)) in
        (v, forget_vector-view o laws i s w j ∙ rw other held)
  ]

  forget_vectors-HasVectors :
      (ids : List Text) (s : IndexState o)
      → IsValid o s
      → HasVectors o s
      → HasVectors o (forget_vectors o ids s)
  unfolding forget_vectors
  forget_vectors-HasVectors [] s w full = full
  forget_vectors-HasVectors (i ∷ ids) s w full =
      forget_vectors-HasVectors ids (forget_vector o i s) (forget_vector-IsValid o laws i s w)
        (forget_vector-HasVectors i s w full)

  forget_chunks-HasVectors :
      (ids : List Text) (s : IndexState o)
      → IsValid o s
      → HasVectors o s
      → HasVectors o (forget_chunks o ids s)
  unfolding forget_chunks
  forget_chunks-HasVectors [] s w full = full
  forget_chunks-HasVectors (i ∷ ids) s w full =
      let v = forget_vector-IsValid o laws i s w in
      forget_chunks-HasVectors ids (drop_chunk o i (forget_vector o i s))
        (record { below = v.below; distinct = v.distinct; free = v.free })
        (forget_vector-HasVectors i s w full)

  add_vector-keys :
      (i j : Text) (v : o.Vector) (s : IndexState o)
      → text_eq i j ≡ false
      → contains j (keys_of (add_vector o i v s).0.id_to_key) ≡ true
      → contains j (keys_of s.id_to_key) ≡ true
  unfolding add_vector
  add_vector-keys i j v s other h = elim (Result-cases (o.add s.next_key v s.hnsw)) [
    | inr (e, failed) ↦ rw (failed, add_vector) at h
    | inl (g, added) ↦
        ground
          (arith, rw (added, add_vector) at h, contains-insert i j s.next_key s.id_to_key, other)
  ]

  add_vector-HasVectors :
      (i : Text) (v : o.Vector) (s : IndexState o)
      → HasVectors o s
      → Puts o laws i v s (add_vector o i v s).0
      → HasVectors o (add_vector o i v s).0
  add_vector-HasVectors i v s full (valid, put, bigger, same_room, meta) j h =
      elim (Bool-cases (text_eq i j)) [
        | inl same ↦ (laws.quantize v, put j ∙ rw same refl)
        | inr other ↦
            let (u, held) = full j (add_vector-keys i j v s other h) in (u, put j ∙ rw other held)
      ]

  insert_edges-HasVectors :
      (es : List (Text × o.Vector)) (s : IndexState o)
      → IsValid o s
      → HasRoom o (length es) s.hnsw
      → HasVectors o s
      → HasVectors o (insert_edges o es s).0
  unfolding insert_edges
  insert_edges-HasVectors [] s w room full = full
  insert_edges-HasVectors ((i, v) ∷ es) s w room full =
      let (done, p) = add_vector-Puts o laws i v s w (omega arith) in
      let (valid, put, bigger, same, meta) = p in
      rw (done, insert_edges)
        (insert_edges-HasVectors es (add_vector o i v s).0 valid (omega arith)
          (add_vector-HasVectors i v s full p))

  insert_chunks-HasVectors :
      (cs : List Chunk) (vs : List o.Vector) (s : IndexState o) (f : StoredFile o)
      → IsValid o s
      → HasRoom o (length cs) s.hnsw
      → length cs ≤ length vs
      → HasVectors o s
      → HasVectors o (insert_chunks o cs vs s f).0
  unfolding insert_chunks
  insert_chunks-HasVectors [] vs s f w room enough full = full
  insert_chunks-HasVectors (c ∷ cs) [] s f w room enough full = absurd (omega arith)
  insert_chunks-HasVectors (c ∷ cs) (v ∷ vs) s f w room enough full =
      let (done, p) = add_vector-Puts o laws c.id v s w (omega arith) in
      let (valid, put, bigger, same, meta) = p in
      rw (done, insert_chunks)
        (insert_chunks-HasVectors cs vs (put_chunk o c (add_vector o c.id v s).0)
          (record f { chunk_ids = f.chunk_ids ++ c.id ∷ [] })
          (record { below = valid.below; distinct = valid.distinct; free = valid.free })
          (omega arith) (omega arith) (add_vector-HasVectors c.id v s full p))

  forget_file-HasVectors :
      (path : Text) (s : IndexState o)
      → IsValid o s
      → HasVectors o s
      → HasVectors o (forget_file o path s).0
  unfolding forget_file
  forget_file-HasVectors path s w full = elim (Option-cases (lookup path s.metadata.files)) [
    | inl absent ↦ rw (absent, forget_file) full
    | inr (old, found) ↦
        rw (found, forget_file)
          (forget_chunks-HasVectors old.chunk_ids
            (record s { metadata = record s.metadata { files = remove path s.metadata.files } })
            (record { below = w.below; distinct = w.distinct; free = w.free }) full)
  ]

  module _ (s : IndexState o) (w : IsValid o s) (full : HasVectors o s) where
    upsert-HasVectors :
        (now : ℕ) (file : MarkdownFile) (cs : List Chunk) (vs : List o.Vector)
        → length cs ≤ length vs
        → HasVectors o (upsert o now file cs vs s).0
    unfolding upsert store_file
    upsert-HasVectors now file cs vs enough =
        let path = to_slash file.path in
        let forgot = (forget_file o path s).0 in
        let valid = (forget_file-ForgetsFile o laws path s w).vectors.0 in
        let kept = forget_file-HasVectors path s w full in
        let new_file =
          reconcile_materialized_proofs o
            (record (stored_file o now file) { computed_fields = (forget_file o path s).1 }) in
        elim (ensure_capacity-HasRoom o laws (length cs) forgot.hnsw) [
          | inr (e, small, failed, r) ↦ rw (r, upsert) kept
          | inl (g, grown, room, same) ↦
              let u = record forgot { hnsw = g } in
              let u_valid = grown-KeysAreValid o laws forgot g same valid in
              let (done, assigned, meta) =
                insert_chunks-Assigns o laws cs vs u new_file u_valid room enough in
              rw (grown, done, upsert)
                (insert_chunks-HasVectors cs vs u new_file u_valid room enough (λ j h.
                  let (v, held) = kept j h in (v, grown_view o laws forgot g same j ∙ held)))
        ]

    upsert_edges-HasVectors :
        (edges : List (Text × o.Vector)) → HasVectors o (upsert_edges o edges s).0
    unfolding upsert_edges
    upsert_edges-HasVectors edges =
        let forgot = forget_vectors o (keys_of edges) s in
        let valid = (forget_vectors-Forgets o laws (keys_of edges) s w).0 in
        let kept = forget_vectors-HasVectors (keys_of edges) s w full in
        elim (ensure_capacity-HasRoom o laws (length edges) forgot.hnsw) [
          | inr (e, small, failed, r) ↦ rw (r, upsert_edges) kept
          | inl (g, grown, room, same) ↦
              let u = record forgot { hnsw = g } in
              let u_valid = grown-KeysAreValid o laws forgot g same valid in
              let (done, assigned, meta) = insert_edges-Assigns o laws edges u u_valid room in
              rw (grown, done, upsert_edges)
                (insert_edges-HasVectors edges u u_valid room (λ j h.
                  let (v, held) = kept j h in (v, grown_view o laws forgot g same j ∙ held)))
        ]

    remove_file-HasVectors : (path : Text) → HasVectors o (remove_file o path s).0
    unfolding remove_file remove_present
    remove_file-HasVectors path = elim (Option-cases (lookup path s.metadata.files)) [
      | inl absent ↦ rw (absent, remove_file) full
      | inr (file, found) ↦
          let rest = record s {
            metadata = record s.metadata { files = remove path s.metadata.files };
          } in
          let rest_valid : IsValid o rest = record {
            below = w.below;
            distinct = w.distinct;
            free = w.free;
          } in
          let t = forget_chunks o file.chunk_ids rest in
          rw (found, remove_file)
            (forget_vectors-HasVectors
              (filter (starts_with (edge_prefix o path)) (keys_of t.id_to_key)) t
              (forget_chunks-Forgets o laws file.chunk_ids rest rest_valid).0
              (forget_chunks-HasVectors file.chunk_ids rest rest_valid full))
    ]

    -- In a state with valid keys where each key has a vector, an `upsert` with a vector for each
    -- chunk, an `upsert_edges` and a `remove_file` leave such keys again, whether they succeed or
    -- fail: no identifier gets a key without a vector, or loses its vector but keeps its key.
    pub writes-HasVectors :
        (now : ℕ) (file : MarkdownFile) (cs : List Chunk) (vs : List o.Vector)
        (edges : List (Text × o.Vector)) (path : Text)
        → length cs ≤ length vs
        → HasVectors o (upsert o now file cs vs s).0
          × HasVectors o (upsert_edges o edges s).0
          × HasVectors o (remove_file o path s).0
    writes-HasVectors now file cs vs edges path enough = (
      upsert-HasVectors now file cs vs enough,
      upsert_edges-HasVectors edges,
      remove_file-HasVectors path,
    )
