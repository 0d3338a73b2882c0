-- ===== src/Index/Metadata/Kept.antt =====
-- The metadata operations change no vector; what `apply_module_source_state` records.
use markdown_vdb.Base.{
  ℕ, true, List, Option, none, some, Text, text_key, text_eq, text_eq_iff, ◌≡◌, ◌≢◌, refl, arith,
  inl, inr, ◌⊎◌, Bool-cases, Option-cases, subst,
}
use markdown_vdb.Base.Map.{lookup, insert, lookup-insert, lookup-insert_self}
use markdown_vdb.Base.Result.{ok, err}
use markdown_vdb.Parser.{MarkdownFile}
use markdown_vdb.PathUtil.{to_slash}
use markdown_vdb.Index.{
  file_not_in_index, source_changed, Outside, IndexState, StoredFile, ComputedFields, Outcome,
  reconcile_materialized_proofs, frontmatter_text,
}
use markdown_vdb.Index.Metadata.{set_file, put_file, refreshed_file, apply_module_source_state}

module _ (o : Outside) where
  -- The files that are there stay, with their chunks and the hash of what was embedded.
  abbrev pub KeepsEmbedded : List (Text × StoredFile o) → List (Text × StoredFile o) → Type 0
  KeepsEmbedded files after =
      (p : Text) (f : StoredFile o)
      → lookup p files ≡ some f
      → (g : StoredFile o) × (lookup p after ≡ some g)
        × (g.embedding_body_hash ≡ f.embedding_body_hash)
        × (g.chunk_ids ≡ f.chunk_ids)

  pub record KeepsVectors (s t : IndexState o) : Type 0 where
    pub same_hnsw : t.hnsw ≡ s.hnsw
    pub same_keys : (t.id_to_key ≡ s.id_to_key) × (t.next_key ≡ s.next_key)
    pub same_chunks : t.metadata.chunks ≡ s.metadata.chunks
    pub embedded : KeepsEmbedded s.metadata.files t.metadata.files

  -- A file is replaced by one with the same chunks, or is new.
  abbrev pub Replaces : Option (StoredFile o) → StoredFile o → Type 0
  Replaces none g = Unit
  Replaces (some f) g =
      (g.embedding_body_hash ≡ f.embedding_body_hash) × (g.chunk_ids ≡ f.chunk_ids)

  insert-KeepsEmbedded :
      (path : Text) (g : StoredFile o) (files : List (Text × StoredFile o))
      → Replaces (lookup path files) g
      → KeepsEmbedded files (insert path g files)
  insert-KeepsEmbedded path g files r p f found = elim (Bool-cases (text_eq path p)) [
    | inl same ↦
        let here : lookup path files ≡ some f = rw ((text_eq_iff path p).0 same) found in
        let kept = subst (λ x. Replaces x g) here r in
        (g, rw (lookup-insert path p g files, same) refl, kept.0, kept.1)
    | inr other ↦ (f, rw (lookup-insert path p g files, other) found, refl, refl)
  ]

  pub set_file-KeepsVectors :
      (path : Text) (g : StoredFile o) (s : IndexState o)
      → Replaces (lookup path s.metadata.files) g
      → KeepsVectors s (set_file o path g s)
  set_file-KeepsVectors path g s r = record {
    same_hnsw = refl;
    same_keys = (refl, refl);
    same_chunks = refl;
    embedded = insert-KeepsEmbedded path g s.metadata.files r;
  }

  pub put_file-KeepsVectors :
      (path : Text) (time : ℕ) (g : StoredFile o) (s : IndexState o)
      → Replaces (lookup path s.metadata.files) g
      → KeepsVectors s (put_file o path time g s)
  put_file-KeepsVectors path time g s r = record {
    same_hnsw = refl;
    same_keys = (refl, refl);
    same_chunks = refl;
    embedded = insert-KeepsEmbedded path g s.metadata.files r;
  }

  pub refreshed-Replaces :
      (file : MarkdownFile) (fields : ComputedFields o) (f : StoredFile o)
      → Replaces (some f) (refreshed_file o file fields f)
  unfolding refreshed_file reconcile_materialized_proofs
  refreshed-Replaces file fields f = (refl, refl)

  -- The file is stored with the source's hash and frontmatter.
  abbrev pub Records : MarkdownFile → IndexState o → Type 0
  Records file t =
      (g : StoredFile o) × (lookup (to_slash file.path) t.metadata.files ≡ some g)
      × (g.content_hash ≡ file.content_hash)
      × (g.frontmatter ≡ frontmatter_text o file)

  refreshed-Records :
      (file : MarkdownFile) (fields : ComputedFields o) (f : StoredFile o) (s : IndexState o)
      → Records file
          (put_file o (to_slash file.path) file.modified_at (refreshed_file o file fields f) s)
  unfolding refreshed_file reconcile_materialized_proofs
  refreshed-Records file fields f s =
      let g = refreshed_file o file fields f in
      (g, lookup-insert_self (to_slash file.path) g s.metadata.files, refl, refl)

  -- `apply_module_source_state` on every branch: whether the file is there with the expected hash
  -- decides.
  abbrev pub Applies : Text → MarkdownFile → IndexState o → Outcome o Unit → Type 0
  Applies expected file s out =
      let path = to_slash file.path in
      ((f : StoredFile o) × (lookup path s.metadata.files ≡ some f)
        × (f.content_hash ≡ expected)
        × (out.1 ≡ ok tt)
        × (out.0.dirty ≡ true)
        × KeepsVectors s out.0
        × Records file out.0)
      ⊎ ((out.0 ≡ s)
          × (((lookup path s.metadata.files ≡ none) × (out.1 ≡ err (file_not_in_index path)))
              ⊎ ((f : StoredFile o) × (lookup path s.metadata.files ≡ some f)
                  × (f.content_hash ≢ expected)
                  × (out.1 ≡ err (source_changed path)))))

  -- A module's rewrite of a source is recorded exactly when the file is indexed and has the hash
  -- that the module expects. It is then stored with the source's hash and frontmatter; the
  -- operation leaves all vectors, keys and chunks as they are, and every
  -- file that is indexed with its chunks and the hash of its embedded body, and the index is to be
  -- saved. A file that is not indexed, and a changed one, give their errors, and leave the state
  -- as it was.
  pub apply_module_source_state-Applies :
      (expected : Text) (file : MarkdownFile) (fields : ComputedFields o) (s : IndexState o)
      → Applies expected file s (apply_module_source_state o expected file fields s)
  unfolding apply_module_source_state
  apply_module_source_state-Applies expected file fields s =
      let path = to_slash file.path in
      elim (Option-cases (lookup path s.metadata.files)) [
        | inl absent ↦ rw (absent, apply_module_source_state) (inr (refl, inl (refl, refl)))
        | inr (f, found) ↦ elim (Bool-cases (text_eq f.content_hash expected)) [
          | inr changed ↦
              let differs : f.content_hash ≢ expected =
                λ e. absurd (ground (arith, changed, text_eq_iff f.content_hash expected, e)) in
              rw (found, changed, apply_module_source_state)
                (inr (refl, inr (f, refl, differs, refl)))
          | inl same ↦
              let g = refreshed_file o file fields f in
              rw (found, same, apply_module_source_state)
                (inl (
                  f,
                  refl,
                  (text_eq_iff f.content_hash expected).0 same,
                  refl,
                  refl,
                  put_file-KeepsVectors path file.modified_at g s
                      (rw found (refreshed-Replaces file fields f)),
                  refreshed-Records file fields f s,
                ))
        ]
      ]
