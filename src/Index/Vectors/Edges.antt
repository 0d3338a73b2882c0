-- ===== src/Index/Vectors/Edges.antt =====
-- `upsert_edges` and `remove_file` as updates of the map from identifiers to vectors.
use markdown_vdb.Base.{
  true, false, ◌||◌, List, [], ◌∷◌, filter, length, Option, none, some, Text, text_key, text_eq,
  ◌≡◌, refl, ◌∙◌, arith, inl, inr, ◌⊎◌, Bool-cases, Option-cases, ap, if◌then◌else◌,
}
use markdown_vdb.Base.Strings.{starts_with}
use markdown_vdb.Base.Map.{lookup, remove, lookup-remove, contains, contains-filter, lookup_absent}
use markdown_vdb.Base.Result.{ok}
use markdown_vdb.Index.{Outside, IndexState, StoredFile}
use markdown_vdb.Index.Vectors.{
  keys_of, forget_vectors, forget_chunks, upsert_edges, edge_prefix, remove_present, remove_file,
}
use markdown_vdb.Index.Vectors.View.{Laws, view, IsValid, assign, assign_cong, without}
use markdown_vdb.Index.Vectors.Forget.{Forgets, forget_vectors-Forgets, forget_chunks-Forgets}
use markdown_vdb.Index.Vectors.Insert.{
  insert_edges-Assigns, ensure_capacity-HasRoom, grown-KeysAreValid, grown_view,
}
use markdown_vdb.Index.Vectors.ForgetFile.{
  forget_vectors-metadata, forget_chunks-metadata, drop_chunks,
}
use markdown_vdb.Index.Vectors.Upsert.{RanOut}

module _ (o : Outside) where
  -- Maps that agree outside the new identifiers are the same with them put in.
  assign_agree :
      (q : o.Vector → o.Vector) (es : List (Text × o.Vector)) (f g : Text → Option o.Vector)
      → ((j : Text) → contains j (keys_of es) ≡ false → f j ≡ g j)
      → (id : Text) → assign o q es f id ≡ assign o q es g id
  unfolding contains
  assign_agree q [] f g h id = h id refl
  assign_agree q ((i, v) ∷ es) f g h id =
      assign_agree q es (λ j. if text_eq i j then some (q v) else f j)
        (λ j. if text_eq i j then some (q v) else g j)
        (λ j k. elim (Bool-cases (text_eq i j)) [
          | inl same ↦ rw same refl
          | inr other ↦ rw other (h j (rw other k))
        ])
        id

  assign-without :
      (q : o.Vector → o.Vector) (es : List (Text × o.Vector)) (f : Text → Option o.Vector)
      (id : Text)
      → assign o q es (without o (keys_of es) f) id ≡ assign o q es f id
  assign-without q es f id = assign_agree q es (without o (keys_of es) f) f (λ j h. rw h refl) id

module _ (o : Outside) (laws : Laws o) (edges : List (Text × o.Vector)) (s : IndexState o)
    (w : IsValid o s) where
  abbrev forgot : IndexState o
  forgot = forget_vectors o (keys_of edges) s

  forgotten : Forgets o laws (keys_of edges) s forgot
  forgotten = forget_vectors-Forgets o laws (keys_of edges) s w

  abbrev pub EdgesAssigned : IndexState o → Type 0
  EdgesAssigned t =
      IsValid o t
      × ((id : Text) → view o t id ≡ assign o laws.quantize edges (view o s) id)
      × (t.metadata ≡ s.metadata)
      × (t.dirty ≡ true)

  -- In a state with valid keys, `upsert_edges` either succeeds, where the edges have their vectors,
  -- every other identifier has what it had, and the tables are as they were; or only the vectors of
  -- these edges are gone, the index has no capacity left for the new ones, the reservation of more
  -- returned an error, and this error is returned. In both cases the keys are left valid.
  pub upsert_edges-Assigned :
      (((upsert_edges o edges s).1 ≡ ok tt) × EdgesAssigned (upsert_edges o edges s).0)
      ⊎ RanOut o laws (length edges) (keys_of edges) s (upsert_edges o edges s)
  unfolding upsert_edges
  upsert_edges-Assigned = elim (ensure_capacity-HasRoom o laws (length edges) forgot.hnsw) [
    | inl (g, grown, room, same) ↦
        let u = record forgot { hnsw = g } in
        let (done, assigned, meta) =
          insert_edges-Assigns o laws edges u (grown-KeysAreValid o laws forgot g same forgotten.0)
            room in
        inl (
          rw (grown, done, upsert_edges) refl,
          rw (grown, done, upsert_edges)
              (
                assigned.0,
                λ id.
                    assigned.1 id
                    ∙ (assign_cong o laws.quantize edges (view o u)
                          (without o (keys_of edges) (view o s))
                          (λ j. grown_view o laws forgot g same j ∙ forgotten.1 j) id
                        ∙ assign-without o laws.quantize edges (view o s) id),
                meta ∙ forget_vectors-metadata o (keys_of edges) s,
                refl,
              ),
        )
    | inr (e, full, failed, r) ↦ inr (
      e,
      rw (r, upsert_edges) full,
      rw (r, upsert_edges) failed,
      rw (r, upsert_edges) refl,
      rw (r, upsert_edges) forgotten,
    )
  ]

module _ (o : Outside) (laws : Laws o) (path : Text) (s : IndexState o) (w : IsValid o s) where
  -- The file's chunks and the edges from the file have no vector any more, and every other
  -- identifier has what it had; the file and its chunks are out of their tables.
  pub record Removed (file : StoredFile o) (t : IndexState o) : Type 0 where
    pub valid : IsValid o t
    pub vectors :
        (id : Text)
        → view o t id ≡ (
            if contains id file.chunk_ids || starts_with (edge_prefix o path) id
            then none
            else view o s id)
    pub files :
        (p : Text)
        → lookup p t.metadata.files ≡ (if text_eq path p then none else lookup p s.metadata.files)
    pub chunks : t.metadata.chunks ≡ drop_chunks file.chunk_ids s.metadata.chunks
    pub is_dirty : t.dirty ≡ true

  -- Removing the edges among the keys removes every identifier with the prefix.
  edges_gone :
      (pre : Text) (t : IndexState o) (id : Text)
      → without o (filter (starts_with pre) (keys_of t.id_to_key)) (view o t) id
        ≡ (if starts_with pre id then none else view o t id)
  edges_gone pre t id = elim (Bool-cases (contains id (keys_of t.id_to_key))) [
    | inl in_use ↦ rw (contains-filter (starts_with pre) id (keys_of t.id_to_key), in_use) refl
    | inr unused ↦
        rw
          (
            contains-filter (starts_with pre) id (keys_of t.id_to_key),
            unused,
            lookup_absent id t.id_to_key unused,
          )
          (ground arith)
  ]

  remove_present-Removed : (file : StoredFile o) → Removed file (remove_present o path file s)
  unfolding remove_present
  remove_present-Removed file =
      let rest = record s {
        metadata = record s.metadata { files = remove path s.metadata.files };
      } in
      let t = forget_chunks o file.chunk_ids rest in
      let pre = edge_prefix o path in
      let edges = filter (starts_with pre) (keys_of t.id_to_key) in
      let (valid, gone) = forget_chunks-Forgets o laws file.chunk_ids rest w in
      let (valid', gone') = forget_vectors-Forgets o laws edges t valid in
      let meta = forget_vectors-metadata o edges t ∙ forget_chunks-metadata o file.chunk_ids rest in
      record {
        valid = valid';
        vectors = λ id. gone' id ∙ (edges_gone pre t id ∙ rw (gone id) (ground arith));
        files = λ p. ap (λ m. lookup p m.files) meta ∙ lookup-remove path p s.metadata.files;
        chunks = ap (λ m. m.chunks) meta;
        is_dirty = refl;
      }

  -- In a state with valid keys, `remove_file` succeeds. Removing a file that is not there changes
  -- nothing; else the file goes with its chunks, their vectors and those of the edges from it,
  -- nothing else changes in the map from identifiers to vectors, and the keys are left valid.
  pub remove_file-Removed :
      ((remove_file o path s).1 ≡ ok tt)
      × (((lookup path s.metadata.files ≡ none) × ((remove_file o path s).0 ≡ s))
          ⊎ ((file : StoredFile o) × (lookup path s.metadata.files ≡ some file)
              × Removed file (remove_file o path s).0))
  unfolding remove_file
  remove_file-Removed = elim (Option-cases (lookup path s.metadata.files)) [
    | inl absent ↦ (rw (absent, remove_file) refl, inl (absent, rw (absent, remove_file) refl))
    | inr (file, found) ↦ (
      rw (found, remove_file) refl,
      inr (file, found, rw (found, remove_file) (remove_present-Removed file)),
    )
  ]
