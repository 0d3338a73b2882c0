-- ===== src/Index/Vectors/ForgetFile.antt =====
-- What goes when a file is replaced or removed.
use markdown_vdb.Base.{
  false, List, [], ◌∷◌, Option, none, some, Text, text_key, text_eq, ◌≡◌, refl, ◌∙◌, arith, inl,
  inr, Option-cases, ap,
}
use markdown_vdb.Base.Map.{lookup, remove, lookup-remove, contains}
use markdown_vdb.Index.{Outside, IndexState, StoredFile, StoredChunk, ComputedFields, IndexMetadata}
use markdown_vdb.Index.Vectors.{
  forget_vector, forget_vectors, forget_chunks, drop_chunk, forget_file,
}
use markdown_vdb.Index.Vectors.View.{Laws, IsValid}
use markdown_vdb.Index.Vectors.Forget.{Forgets, forget_chunks-Forgets}

abbrev pub drop_chunks : List Text → List (Text × StoredChunk) → List (Text × StoredChunk)
drop_chunks [] m = m
drop_chunks (id ∷ ids) m = drop_chunks ids (remove id m)

module _ (o : Outside) where
  abbrev pub old_ids : Option (StoredFile o) → List Text
  old_ids none = []
  old_ids (some f) = f.chunk_ids

  abbrev pub old_fields : Option (StoredFile o) → ComputedFields o
  old_fields none = []
  old_fields (some f) = f.computed_fields

  forget_vector-metadata :
      (id : Text) (s : IndexState o) → (forget_vector o id s).metadata ≡ s.metadata
  unfolding forget_vector
  forget_vector-metadata id s = elim (Option-cases (lookup id s.id_to_key)) [
    | inl absent ↦ rw (absent, forget_vector) refl
    | inr (k, found) ↦ rw (found, forget_vector) refl
  ]

  pub forget_vectors-metadata :
      (ids : List Text) (s : IndexState o) → (forget_vectors o ids s).metadata ≡ s.metadata
  unfolding forget_vectors
  forget_vectors-metadata [] s = refl
  forget_vectors-metadata (id ∷ ids) s =
      forget_vectors-metadata ids (forget_vector o id s) ∙ forget_vector-metadata id s

  forget_vector-dirty : (id : Text) (s : IndexState o) → (forget_vector o id s).dirty ≡ s.dirty
  unfolding forget_vector
  forget_vector-dirty id s = elim (Option-cases (lookup id s.id_to_key)) [
    | inl absent ↦ rw (absent, forget_vector) refl
    | inr (k, found) ↦ rw (found, forget_vector) refl
  ]

  pub forget_vectors-dirty :
      (ids : List Text) (s : IndexState o) → (forget_vectors o ids s).dirty ≡ s.dirty
  unfolding forget_vectors
  forget_vectors-dirty [] s = refl
  forget_vectors-dirty (id ∷ ids) s =
      forget_vectors-dirty ids (forget_vector o id s) ∙ forget_vector-dirty id s

  pub forget_chunks-metadata :
      (ids : List Text) (s : IndexState o)
      → (forget_chunks o ids s).metadata
        ≡ record s.metadata { chunks = drop_chunks ids s.metadata.chunks }
  unfolding forget_chunks
  forget_chunks-metadata [] s = refl
  forget_chunks-metadata (id ∷ ids) s =
      let drop : IndexMetadata o → IndexMetadata o =
        λ m. record m { chunks = drop_chunks ids (remove id m.chunks) } in
      forget_chunks-metadata ids (drop_chunk o id (forget_vector o id s))
      ∙ ap drop (forget_vector-metadata id s)

module _ (o : Outside) (laws : Laws o) where
  -- The file of the path, and its chunks with their vectors, are gone.
  pub record ForgetsFile (path : Text) (s t : IndexState o) (fields : ComputedFields o)
      : Type 0 where
    pub vectors : Forgets o laws (old_ids o (lookup path s.metadata.files)) s t
    pub chunks :
        t.metadata.chunks ≡ drop_chunks (old_ids o (lookup path s.metadata.files)) s.metadata.chunks
    pub other_files :
        (p : Text) → text_eq path p ≡ false → lookup p t.metadata.files ≡ lookup p s.metadata.files
    pub old_computed_fields : fields ≡ old_fields o (lookup path s.metadata.files)

  pub forget_file-ForgetsFile :
      (path : Text) (s : IndexState o)
      → IsValid o s
      → ForgetsFile path s (forget_file o path s).0 (forget_file o path s).1
  unfolding forget_file contains
  forget_file-ForgetsFile path s w = elim (Option-cases (lookup path s.metadata.files)) [
    | inl absent ↦ record {
      vectors = rw (absent, forget_file) (w, λ id. refl);
      chunks = rw (absent, forget_file) refl;
      other_files = λ p h. rw (absent, forget_file) refl;
      old_computed_fields = rw (absent, forget_file) refl;
    }
    | inr (old, found) ↦
        let rest = record s {
          metadata = record s.metadata { files = remove path s.metadata.files };
        } in
        record {
          vectors = rw (found, forget_file) (forget_chunks-Forgets o laws old.chunk_ids rest w);
          chunks =
              rw (found, forget_file)
                (ap (λ m. m.chunks) (forget_chunks-metadata o old.chunk_ids rest));
          other_files = λ p h.
              rw (found, forget_file)
                (ap (λ m. lookup p m.files) (forget_chunks-metadata o old.chunk_ids rest)
                  ∙ ground (arith, lookup-remove path p s.metadata.files));
          old_computed_fields = rw (found, forget_file) refl;
        }
  ]
