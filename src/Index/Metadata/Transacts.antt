-- ===== src/Index/Metadata/Transacts.antt =====
-- What `refresh_source_metadata`, `replace_computed_fields` and
-- `insert_unembedded_source_metadata` record, and that nothing happens where they fail.
use markdown_vdb.Base.{
  ℕ, true, [], ◌++◌, if◌then◌else◌, none, some, Text, text_key, text_eq, ◌≡◌, refl, inl, inr, ◌⊎◌,
  Bool-cases, Option-cases,
}
use markdown_vdb.Base.Strings.{codes}
use markdown_vdb.Base.Map.{lookup, contains, lookup-insert, lookup_absent}
use markdown_vdb.Base.Result.{ok, err}
use markdown_vdb.Parser.{MarkdownFile}
use markdown_vdb.PathUtil.{to_slash}
use markdown_vdb.Index.{
  Error, config_error, reconcile_fields, file_not_in_index, Outside, IndexState, StoredFile,
  ComputedFields, Outcome, stored_file, reconcile_materialized_proofs, frontmatter_text,
}
use markdown_vdb.Index.Vectors.{keys_of, set_mtime}
use markdown_vdb.Index.Metadata.{
  insert_unembedded_source_metadata, replace_computed_fields, refreshed_file,
  refresh_source_metadata,
}
use markdown_vdb.Index.Metadata.Kept.{
  KeepsVectors, set_file-KeepsVectors, put_file-KeepsVectors, refreshed-Replaces,
}

module _ (o : Outside) where
  -- The file is stored at the path, every other path has the file that it had, no vector, key or
  -- chunk changes, and the index is to be saved.
  pub record Stores (path : Text) (g : StoredFile o) (s : IndexState o) (out : Outcome o Unit)
      : Type 0 where
    pub succeeds : out.1 ≡ ok tt
    pub is_dirty : out.0.dirty ≡ true
    pub keeps_vectors : KeepsVectors o s out.0
    pub files :
        (p : Text)
        → lookup p out.0.metadata.files
          ≡ (if text_eq path p then some g else lookup p s.metadata.files)

  -- Nothing has happened but the error.
  abbrev pub Refuses : Error → IndexState o → Outcome o Unit → Type 0
  Refuses e s out = (out.1 ≡ err e) × (out.0 ≡ s)

  -- The stored file with the source's hash, frontmatter and size, and its computed fields as far
  -- as the new frontmatter proves them; the time of the source's modification is recorded.
  abbrev pub Refreshes : MarkdownFile → IndexState o → Outcome o Unit → Type 0
  Refreshes file s out =
      let path = to_slash file.path in
      ((lookup path s.metadata.files ≡ none) × Refuses (file_not_in_index path) s out)
      ⊎ ((f : StoredFile o) × (lookup path s.metadata.files ≡ some f)
          × Stores path
              (record f {
                content_hash = file.content_hash;
                frontmatter = frontmatter_text o file;
                file_size = file.file_size;
                computed_fields = reconcile_fields o (frontmatter_text o file) f.computed_fields;
              })
              s out
          × (out.0.metadata.file_mtimes ≡ set_mtime path file.modified_at s.metadata.file_mtimes))

  -- The stored file with the new fields, as far as its frontmatter proves them.
  abbrev pub Recomputes : Text → ComputedFields o → IndexState o → Outcome o Unit → Type 0
  Recomputes path fields s out =
      ((lookup path s.metadata.files ≡ none) × Refuses (file_not_in_index path) s out)
      ⊎ ((f : StoredFile o) × (lookup path s.metadata.files ≡ some f)
          × Stores path (record f { computed_fields = reconcile_fields o f.frontmatter fields }) s
              out
          × (out.0.metadata.file_mtimes ≡ s.metadata.file_mtimes))

  -- The source as it is, without chunks, computed fields or the hash of an embedded body; the time
  -- of its modification is recorded.
  abbrev pub Introduces : ℕ → MarkdownFile → IndexState o → Outcome o Unit → Type 0
  Introduces now file s out =
      let path = to_slash file.path in
      ((contains path (keys_of s.metadata.files) ≡ true)
        × Refuses
            (config_error (
              codes "cannot insert provisional source metadata for existing file `"
              ++ (path ++ codes "`")))
            s out)
      ⊎ ((lookup path s.metadata.files ≡ none)
          × Stores path
              (record {
                relative_path = path;
                content_hash = file.content_hash;
                embedding_body_hash = [];
                frontmatter = frontmatter_text o file;
                file_size = file.file_size;
                chunk_ids = [];
                indexed_at = now;
                computed_fields = [];
              })
              s out
          × (out.0.metadata.file_mtimes ≡ set_mtime path file.modified_at s.metadata.file_mtimes))

  replace-Recomputes :
      (path : Text) (fields : ComputedFields o) (s : IndexState o)
      → Recomputes path fields s (replace_computed_fields o path fields s)
  unfolding replace_computed_fields reconcile_materialized_proofs
  replace-Recomputes path fields s = elim (Option-cases (lookup path s.metadata.files)) [
    | inl absent ↦ rw (absent, replace_computed_fields) (inl (refl, (refl, refl)))
    | inr (f, found) ↦
        let g = record f { computed_fields = reconcile_fields o f.frontmatter fields } in
        rw (found, replace_computed_fields)
          (inr (
            f,
            refl,
            record {
              succeeds = refl;
              is_dirty = refl;
              keeps_vectors = set_file-KeepsVectors o path g s (rw found (refl, refl));
              files = λ p. lookup-insert path p g s.metadata.files;
            },
            refl,
          ))
  ]

  refresh-Refreshes :
      (file : MarkdownFile) (s : IndexState o) → Refreshes file s (refresh_source_metadata o file s)
  unfolding refresh_source_metadata refreshed_file reconcile_materialized_proofs
  refresh-Refreshes file s =
      let path = to_slash file.path in
      elim (Option-cases (lookup path s.metadata.files)) [
        | inl absent ↦ rw (absent, refresh_source_metadata) (inl (refl, (refl, refl)))
        | inr (f, found) ↦
            let g = refreshed_file o file f.computed_fields f in
            rw (found, refresh_source_metadata)
              (inr (
                f,
                refl,
                record {
                  succeeds = refl;
                  is_dirty = refl;
                  keeps_vectors =
                      put_file-KeepsVectors o path file.modified_at g s
                        (rw found (refreshed-Replaces o file f.computed_fields f));
                  files = λ p. lookup-insert path p g s.metadata.files;
                },
                refl,
              ))
      ]

  insert_unembedded-Introduces :
      (now : ℕ) (file : MarkdownFile) (s : IndexState o)
      → Introduces now file s (insert_unembedded_source_metadata o now file s)
  unfolding insert_unembedded_source_metadata stored_file
  insert_unembedded-Introduces now file s =
      let path = to_slash file.path in
      let g = record (stored_file o now file) { embedding_body_hash = [] } in
      elim (Bool-cases (contains path (keys_of s.metadata.files))) [
        | inl old ↦ rw (old, insert_unembedded_source_metadata) (inl (refl, (refl, refl)))
        | inr new_file ↦
            let absent = lookup_absent path s.metadata.files new_file in
            rw (new_file, insert_unembedded_source_metadata)
              (inr (
                absent,
                record {
                  succeeds = refl;
                  is_dirty = refl;
                  keeps_vectors = put_file-KeepsVectors o path file.modified_at g s (rw absent tt);
                  files = λ p. lookup-insert path p g s.metadata.files;
                },
                refl,
              ))
      ]

  -- A metadata refresh, a replacement of computed fields, and the insertion of a source without
  -- vectors each do all or nothing. The first two fail exactly where the file is not indexed, the
  -- last where it is, with their errors and the state as it was. Else the file is stored as the
  -- operation says: with the source's hash, frontmatter and size and those proofs of its computed
  -- fields that the new frontmatter still has; with the new computed fields, without the proofs
  -- that its frontmatter does not have; or as a source without chunks and without the hash of an
  -- embedded body. A refresh and an insertion record the time of the modification. Every other
  -- file is as it was, all vectors, keys and chunks are as they were, every file that was indexed
  -- keeps its chunks and the hash of its embedded body, and the index is to be saved.
  pub metadata-Transacts :
      (now : ℕ) (path : Text) (file : MarkdownFile) (fields : ComputedFields o) (s : IndexState o)
      → Refreshes file s (refresh_source_metadata o file s)
        × Recomputes path fields s (replace_computed_fields o path fields s)
        × Introduces now file s (insert_unembedded_source_metadata o now file s)
  metadata-Transacts now path file fields s = (
    refresh-Refreshes file s,
    replace-Recomputes path fields s,
    insert_unembedded-Introduces now file s,
  )
