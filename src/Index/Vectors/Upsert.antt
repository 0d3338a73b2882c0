-- ===== src/Index/Vectors/Upsert.antt =====
-- `upsert` as an update of the map from identifiers to vectors, and of the tables of files and
-- chunks.
use markdown_vdb.Base.{
  ℕ, ◌+◌, ◌*◌, ◌<◌, max, ◌≤◌, true, List, map, length, Option, some, Text, text_key, text_eq, ◌≡◌,
  refl, ◌∙◌, inl, inr, ◌⊎◌, Bool-cases, if◌then◌else◌, ap,
}
use markdown_vdb.Base.Strings.{codes}
use markdown_vdb.Base.Map.{lookup, lookup-insert}
use markdown_vdb.Base.Result.{ok, err}
use markdown_vdb.Parser.{MarkdownFile}
use markdown_vdb.PathUtil.{to_slash}
use markdown_vdb.Chunker.{Chunk}
use markdown_vdb.Index.{Outside, IndexState, Outcome, StoredFile, ComputedFields}
use markdown_vdb.Index.Vectors.{
  forget_file, insert_chunks, ensure_capacity, usearch_error, store_file, upsert,
}
use markdown_vdb.Index.{stored_file, reconcile_materialized_proofs}
use markdown_vdb.Index.Vectors.View.{Laws, view, IsValid, assign, assign_cong, HasRoom, without}
use markdown_vdb.Index.Vectors.Forget.{Forgets}
use markdown_vdb.Index.Vectors.Insert.{
  pairs, put_chunks, insert_chunks-Assigns, ensure_capacity-HasRoom, grown-KeysAreValid, grown_view,
}
use markdown_vdb.Index.Vectors.ForgetFile.{
  drop_chunks, old_ids, old_fields, ForgetsFile, forget_file-ForgetsFile,
}

module _ (o : Outside) (laws : Laws o) where
  -- What `upsert` stores for the file.
  abbrev pub file_entry : ℕ → MarkdownFile → List Chunk → Option (StoredFile o) → StoredFile o
  file_entry now file chunks old =
      let f =
        reconcile_materialized_proofs o
          (record (stored_file o now file) { computed_fields = old_fields o old }) in
      record f { chunk_ids = map (λ c. c.id) chunks }

  -- The file is stored with its chunks and vectors, in place of what it had before.
  pub record Upserted (now : ℕ) (file : MarkdownFile) (cs : List Chunk) (vs : List o.Vector)
      (s t : IndexState o) : Type 0 where
    pub valid : IsValid o t
    pub vectors :
        (id : Text)
        → view o t id
          ≡ assign o laws.quantize
              (pairs o laws cs vs)
              (without o (old_ids o (lookup (to_slash file.path) s.metadata.files)) (view o s))
              id
    pub files :
        (p : Text)
        → lookup p t.metadata.files ≡ (
            if text_eq (to_slash file.path) p
            then some (file_entry now file cs (lookup (to_slash file.path) s.metadata.files))
            else lookup p s.metadata.files)
    pub chunks :
        t.metadata.chunks
        ≡ put_chunks o laws cs (
            drop_chunks
              (old_ids o (lookup (to_slash file.path) s.metadata.files))
              s.metadata.chunks)
    pub is_dirty : t.dirty ≡ true

  -- There was no room for `n` more vectors once those of `ids` were gone, the reservation of more
  -- failed there, and its error is returned.
  abbrev pub RanOut : ℕ → List Text → IndexState o → Outcome o Unit → Type 0
  RanOut n ids s out =
      let h = out.0.hnsw in
      (e : Text) × (o.capacity h < o.size h + n)
      × (o.reserve (max (o.size h + n) (o.size h * 2)) h ≡ err e)
      × (out.1 ≡ err (usearch_error o (codes "reserve") e))
      × Forgets o laws ids s out.0

  module _ (now : ℕ) (file : MarkdownFile) (cs : List Chunk) (vs : List o.Vector) (s : IndexState o)
      (w : IsValid o s) (enough : length cs ≤ length vs) where
    abbrev path : Text
    path = to_slash file.path

    abbrev forgot : IndexState o
    forgot = (forget_file o path s).0

    abbrev new_file : StoredFile o
    new_file =
        reconcile_materialized_proofs o
          (record (stored_file o now file) { computed_fields = (forget_file o path s).1 })

    forgotten : ForgetsFile o laws path s forgot (forget_file o path s).1
    forgotten = forget_file-ForgetsFile o laws path s w

    module _ (g : o.Hnsw) (grown : ensure_capacity o (length cs) forgot.hnsw ≡ ok g)
        (room : HasRoom o (length cs) g) (same : (k : ℕ) → o.get k g ≡ o.get k forgot.hnsw) where
      abbrev reserved : IndexState o
      reserved = record forgot { hnsw = g }

      reserved-KeysAreValid : IsValid o reserved
      reserved-KeysAreValid = grown-KeysAreValid o laws forgot g same forgotten.vectors.0

      abbrev inserted : Outcome o (StoredFile o)
      inserted = insert_chunks o cs vs reserved new_file

      upsert-stores : upsert o now file cs vs s ≡ (
        store_file o path file.modified_at
            (record new_file { chunk_ids = map (λ c. c.id) cs })
            inserted.0,
        ok tt,
      )
      unfolding upsert
      upsert-stores =
          let (done, assigned, meta) =
            insert_chunks-Assigns o laws cs vs reserved new_file reserved-KeysAreValid room
              enough in
          rw (grown, done, upsert) refl

      final : IndexState o
      final =
          store_file o path file.modified_at (record new_file { chunk_ids = map (λ c. c.id) cs })
            inserted.0

      final_files :
          (p : Text)
          → lookup p inserted.0.metadata.files ≡ lookup p reserved.metadata.files
          → lookup p final.metadata.files ≡ (
              if text_eq path p
              then some (file_entry now file cs (lookup path s.metadata.files))
              else lookup p s.metadata.files)
      unfolding final store_file
      final_files p kept =
          let entry : ComputedFields o → StoredFile o = λ fields.
            record (reconcile_materialized_proofs o
              (record (stored_file o now file) { computed_fields = fields })) {
                chunk_ids = map (λ c. c.id) cs;
              } in
          elim (Bool-cases (text_eq path p)) [
            | inl same_path ↦
                rw
                  (
                    lookup-insert path p (entry (forget_file o path s).1) inserted.0.metadata.files,
                    same_path,
                  )
                  (ap (λ fields. some (entry fields)) forgotten.old_computed_fields)
            | inr other ↦
                rw
                  (
                    lookup-insert path p (entry (forget_file o path s).1) inserted.0.metadata.files,
                    other,
                  )
                  (kept ∙ forgotten.other_files p other)
          ]

      final-Upserted : Upserted now file cs vs s final
      unfolding final store_file
      final-Upserted =
          let (done, assigned, meta) =
            insert_chunks-Assigns o laws cs vs reserved new_file reserved-KeysAreValid room
              enough in
          let before = without o (old_ids o (lookup path s.metadata.files)) (view o s) in
          record {
            valid = assigned.0;
            vectors = λ id.
                assigned.1 id
                ∙ assign_cong o laws.quantize (pairs o laws cs vs) (view o reserved) before
                    (λ j. grown_view o laws forgot g same j ∙ forgotten.vectors.1 j) id;
            files = λ p. final_files p (ap (λ m. lookup p m.files) meta);
            chunks = ap (λ m. m.chunks) meta ∙ ap (put_chunks o laws cs) forgotten.chunks;
            is_dirty = refl;
          }

    -- In a state with valid keys and with a vector for each chunk, `upsert` either succeeds, where
    -- no vector is refused, the file is stored with its chunks, every new chunk has its vector, the
    -- chunks that the file had before and no longer has have none, and every other vector is as it
    -- was; or only the old vectors are gone, the index has no capacity left for the new ones,
    -- the reservation of more returned an error, and this error is returned. In both cases the keys
    -- are left valid.
    pub upsert-Upserted :
        (((upsert o now file cs vs s).1 ≡ ok tt)
          × Upserted now file cs vs s (upsert o now file cs vs s).0)
        ⊎ RanOut
            (length cs)
            (old_ids o (lookup path s.metadata.files))
            s
            (upsert o now file cs vs s)
    unfolding upsert final
    upsert-Upserted = elim (ensure_capacity-HasRoom o laws (length cs) forgot.hnsw) [
      | inl (g, grown, room, same) ↦ inl (
        rw (upsert-stores g grown room same) refl,
        rw (upsert-stores g grown room same) (final-Upserted g grown room same),
      )
      | inr (e, full, failed, r) ↦ inr (
        e,
        rw (r, upsert) full,
        rw (r, upsert) failed,
        rw (r, upsert) refl,
        rw (r, upsert) forgotten.vectors,
      )
    ]
