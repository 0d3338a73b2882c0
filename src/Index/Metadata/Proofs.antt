-- ===== src/Index/Metadata/Proofs.antt =====
-- The proofs that a field of the frontmatter was written by a module, under every operation.
use markdown_vdb.Base.{
  ℕ, true, List, [], ◌∷◌, ◌++◌, Option, none, Text, text_key, ◌≡◌, refl, sym, ◌∙◌, inl, inr, ◌⊎◌,
  Bool-cases, Option-cases, ap, subst, length, All,
}
use markdown_vdb.Base.Map.{lookup, insert, remove, All-insert, All-remove}
use markdown_vdb.Base.Result.{Result, ok, err, Result-cases}
use markdown_vdb.Parser.{MarkdownFile}
use markdown_vdb.PathUtil.{to_slash}
use markdown_vdb.Chunker.{Chunk}
use markdown_vdb.Index.{
  Error, Outside, IndexState, StoredFile, ComputedFieldEntry, ComputedFields, Outcome, stored_file,
  proof_matches, reconcile_fields, reconcile_materialized_proofs,
}
use markdown_vdb.Index.Vectors.{
  forget_file, add_vector, put_chunk, insert_chunks, ensure_capacity, store_file, upsert,
}
use markdown_vdb.Index.Vectors.ForgetFile.{forget_chunks-metadata}

module _ (o : Outside) where
  -- An entry that claims to be materialized has the value that the frontmatter has.
  abbrev pub EntryIsProved : Option Text → Text → ComputedFieldEntry o → Type 0
  EntryIsProved frontmatter field entry =
      (entry.materialized_value_json ≡ none) ⊎ (proof_matches o frontmatter field entry ≡ true)

  abbrev pub FileIsProved : StoredFile o → Type 0
  FileIsProved f = All (λ p. EntryIsProved f.frontmatter p.0 p.1) f.computed_fields

  abbrev pub FilesAreProved : List (Text × StoredFile o) → Type 0
  FilesAreProved files = All (λ p. FileIsProved p.1) files

  abbrev pub IsProved : IndexState o → Type 0
  IsProved s = FilesAreProved s.metadata.files

  reconcile_fields-proved :
      (frontmatter : Option Text) (fields : ComputedFields o)
      → All (λ p. EntryIsProved frontmatter p.0 p.1) (reconcile_fields o frontmatter fields)
  unfolding reconcile_fields
  reconcile_fields-proved frontmatter [] = tt
  reconcile_fields-proved frontmatter ((field, entry) ∷ fields) =
      elim (Bool-cases (proof_matches o frontmatter field entry)) [
        | inl matches ↦ rw matches (inr matches, reconcile_fields-proved frontmatter fields)
        | inr stale ↦ rw stale (inl refl, reconcile_fields-proved frontmatter fields)
      ]

  -- Whatever the fields were, reconciling leaves only entries whose proof holds.
  pub reconciled : (f : StoredFile o) → FileIsProved (reconcile_materialized_proofs o f)
  unfolding reconcile_materialized_proofs
  reconciled f = reconcile_fields-proved f.frontmatter f.computed_fields

  pub insert-FilesAreProved :
      (path : Text) (f : StoredFile o) (files : List (Text × StoredFile o))
      → FilesAreProved files
      → FileIsProved f
      → FilesAreProved (insert path f files)
  insert-FilesAreProved path f files = All-insert (λ p g. FileIsProved g) path f files

  pub remove-FilesAreProved :
      (path : Text) (files : List (Text × StoredFile o))
      → FilesAreProved files
      → FilesAreProved (remove path files)
  remove-FilesAreProved path files = All-remove (λ p g. FileIsProved g) path files

  forget_file-IsProved :
      (path : Text) (s : IndexState o) → IsProved s → IsProved (forget_file o path s).0
  unfolding forget_file
  forget_file-IsProved path s all = elim (Option-cases (lookup path s.metadata.files)) [
    | inl absent ↦ rw (absent, forget_file) all
    | inr (old, found) ↦
        let rest = record s {
          metadata = record s.metadata { files = remove path s.metadata.files };
        } in
        rw (found, forget_file)
          (subst (λ m. FilesAreProved m.files) (sym (forget_chunks-metadata o old.chunk_ids rest))
            (remove-FilesAreProved path s.metadata.files all))
  ]

  pub add_vector-metadata :
      (id : Text) (v : o.Vector) (s : IndexState o) → (add_vector o id v s).0.metadata ≡ s.metadata
  unfolding add_vector
  add_vector-metadata id v s = elim (Result-cases (o.add s.next_key v s.hnsw)) [
    | inl (g, added) ↦ rw (added, add_vector) refl
    | inr (e, failed) ↦ rw (failed, add_vector) refl
  ]

  -- What the loop over the chunks keeps of the file and of the table of files.
  abbrev KeepsFiles : IndexState o → StoredFile o → Outcome o (StoredFile o) → Type 0
  KeepsFiles s f out =
      (out.0.metadata.files ≡ s.metadata.files)
      × ((g : StoredFile o)
          → out.1 ≡ ok g
          → (g.frontmatter ≡ f.frontmatter) × (g.computed_fields ≡ f.computed_fields))

  insert_chunks-KeepsFiles :
      (cs : List Chunk) (vs : List o.Vector) (s : IndexState o) (f : StoredFile o)
      → KeepsFiles s f (insert_chunks o cs vs s f)
  unfolding insert_chunks
  insert_chunks-KeepsFiles [] vs s f =
      (refl, λ g e. (ap frontmatter_of (sym e), ap fields_of (sym e)))
    where
      frontmatter_of : Result Error (StoredFile o) → Option Text
      frontmatter_of (ok g) = g.frontmatter
      frontmatter_of (err e) = f.frontmatter

      fields_of : Result Error (StoredFile o) → ComputedFields o
      fields_of (ok g) = g.computed_fields
      fields_of (err e) = f.computed_fields
  insert_chunks-KeepsFiles (c ∷ cs) [] s f = (refl, λ g e. absurd (cc e))
  insert_chunks-KeepsFiles (c ∷ cs) (v ∷ vs) s f = elim (Result-cases (add_vector o c.id v s).1) [
    | inr (e, failed) ↦
        rw (failed, insert_chunks)
          (ap (λ m. m.files) (add_vector-metadata c.id v s), λ g ends. absurd (cc ends))
    | inl (done, added) ↦
        let f2 = record f { chunk_ids = f.chunk_ids ++ c.id ∷ [] } in
        let (files, same) =
          insert_chunks-KeepsFiles cs vs (put_chunk o c (add_vector o c.id v s).0) f2 in
        rw (added, insert_chunks) (files ∙ ap (λ m. m.files) (add_vector-metadata c.id v s), same)
  ]

  store_file-IsProved :
      (path : Text) (time : ℕ) (f : StoredFile o) (s : IndexState o)
      → IsProved s
      → FileIsProved f
      → IsProved (store_file o path time f s)
  unfolding store_file
  store_file-IsProved path time f s all proved =
      insert-FilesAreProved path f s.metadata.files all proved

  pub upsert-IsProved :
      (now : ℕ) (file : MarkdownFile) (cs : List Chunk) (vs : List o.Vector) (s : IndexState o)
      → IsProved s
      → IsProved (upsert o now file cs vs s).0
  unfolding upsert
  upsert-IsProved now file cs vs s all =
      let path = to_slash file.path in
      let (old, fields) = forget_file o path s in
      let new_file =
        reconcile_materialized_proofs o
          (record (stored_file o now file) { computed_fields = fields }) in
      let forgotten = forget_file-IsProved path s all in
      elim (Result-cases (ensure_capacity o (length cs) old.hnsw)) [
        | inr (e, failed) ↦ rw (failed, upsert) forgotten
        | inl (h, grown) ↦
            let out = insert_chunks o cs vs (record old { hnsw = h }) new_file in
            let (files, same) = insert_chunks-KeepsFiles cs vs (record old { hnsw = h }) new_file in
            let kept : IsProved out.0 = rw files forgotten in
            elim (Result-cases out.1) [
              | inr (e, failed) ↦ rw (grown, failed, upsert) kept
              | inl (g, ends) ↦
                  let (frontmatter, computed) = same g ends in
                  let proved : FileIsProved g =
                    rw (frontmatter, computed)
                      (reconciled (record (stored_file o now file) { computed_fields = fields })) in
                  rw (grown, ends, upsert)
                    (store_file-IsProved path file.modified_at g out.0 kept proved)
            ]
      ]
