-- ===== src/Index/Vectors/Insert.antt =====
-- Adding vectors puts them into the map that the state stands for, and succeeds where there is room.
use markdown_vdb.Base.{
  ℕ, ◌+◌, ◌*◌, max, ◌≤◌, ◌<◌, true, false, List, [], ◌∷◌, ◌++◌, map, length, Option, some, Text,
  text_key, text_eq, text_eq_iff, ◌≡◌, refl, sym, ◌∙◌, ◌==◌, arith, inl, inr, ◌⊎◌, Bool-cases,
  Option-cases, if◌then◌else◌, ltb, append_assoc, append-nil, ap,
}
use markdown_vdb.Base.Strings.{codes}
use markdown_vdb.Base.Map.{lookup, insert, lookup-insert}
use markdown_vdb.Base.Result.{ok, err, Result-cases}
use markdown_vdb.Chunker.{Chunk}
use markdown_vdb.Index.{Outside, IndexState, StoredFile, StoredChunk, stored_chunk, IndexMetadata}
use markdown_vdb.Index.Vectors.{
  add_vector, put_chunk, insert_chunks, insert_edges, ensure_capacity, usearch_error,
}
use markdown_vdb.Index.Vectors.View.{Laws, view, IsValid, assign, assign_cong, HasRoom}

module _ (o : Outside) (laws : Laws o) where
  -- A vector was put in under the identifier.
  abbrev pub Puts : Text → o.Vector → IndexState o → IndexState o → Type 0
  Puts i v s t =
      IsValid o t
      × ((id : Text) → view o t id ≡ (if text_eq i id then some (laws.quantize v) else view o s id))
      × (o.size t.hnsw ≡ o.size s.hnsw + 1)
      × (o.capacity t.hnsw ≡ o.capacity s.hnsw)
      × (t.metadata ≡ s.metadata)

  -- The next key is given to an identifier, and `g` holds `r` there and else the same.
  module _ (i : Text) (s : IndexState o) (w : IsValid o s) (g : o.Hnsw) (r : Option o.Vector)
      (gets : (j : ℕ) → o.get j g ≡ (if s.next_key == j then r else o.get j s.hnsw)) where
    abbrev pub keyed : IndexState o
    keyed = record s {
      hnsw = g;
      id_to_key = insert i s.next_key s.id_to_key;
      next_key = s.next_key + 1;
    }

    pub keyed_view : (id : Text) → view o keyed id ≡ (if text_eq i id then r else view o s id)
    keyed_view id = elim (Bool-cases (text_eq i id)) [
      | inl same ↦
          let self : s.next_key == s.next_key ≡ true = ground arith in
          rw (lookup-insert i id s.next_key s.id_to_key, same, gets s.next_key, self) refl
      | inr other ↦ elim (Option-cases (lookup id s.id_to_key)) [
        | inl absent ↦ rw (lookup-insert i id s.next_key s.id_to_key, other, absent) refl
        | inr (k, found) ↦
            let apart : s.next_key == k ≡ false = let lt = w.below id k found in ground arith in
            rw (lookup-insert i id s.next_key s.id_to_key, other, found, gets k, apart) refl
      ]
    ]

    pub keyed-KeysAreValid : IsValid o keyed
    keyed-KeysAreValid = record {
      below = λ id k h. ground (arith, lookup-insert i id s.next_key s.id_to_key, w.below id k);
      distinct = λ a b k h h'. ground (
        arith,
        lookup-insert i a s.next_key s.id_to_key,
        lookup-insert i b s.next_key s.id_to_key,
        w.below a k,
        w.below b k,
        w.distinct a b k,
        text_eq_iff i a,
        text_eq_iff i b,
      );
      free = λ k h. ground (arith, gets k, w.free k);
    }

  add_vector-ok :
      (i : Text) (v : o.Vector) (s : IndexState o) (w : IsValid o s) (g : o.Hnsw)
      → o.add s.next_key v s.hnsw ≡ ok g
      → ((add_vector o i v s).1 ≡ ok tt) × Puts i v s (add_vector o i v s).0
  unfolding add_vector
  add_vector-ok i v s w g e =
      let r = some (laws.quantize v) in
      let gets : (j : ℕ) → o.get j g ≡ (if s.next_key == j then r else o.get j s.hnsw) =
        λ j. laws.get_add s.next_key j v s.hnsw g e in
      let (bigger, same) = laws.size_add s.next_key v s.hnsw g e in
      rw (e, add_vector)
        (refl, (keyed-KeysAreValid i s w g r gets, keyed_view i s w g r gets, bigger, same, refl))

  pub add_vector-Puts :
      (i : Text) (v : o.Vector) (s : IndexState o)
      → IsValid o s
      → HasRoom o 1 s.hnsw
      → ((add_vector o i v s).1 ≡ ok tt) × Puts i v s (add_vector o i v s).0
  add_vector-Puts i v s w room =
      let (g, e) =
        laws.add_succeeds s.next_key v s.hnsw (w.free s.next_key (omega arith)) (omega arith) in
      add_vector-ok i v s w g e

  -- The vectors were put in one after the other.
  abbrev pub Assigns : List (Text × o.Vector) → IndexState o → IndexState o → Type 0
  Assigns es s t =
      IsValid o t × ((id : Text) → view o t id ≡ assign o laws.quantize es (view o s) id)

  Puts-Assigns :
      (i : Text) (v : o.Vector) (es : List (Text × o.Vector)) (s t u : IndexState o)
      → Puts i v s t
      → Assigns es t u
      → Assigns ((i, v) ∷ es) s u
  Puts-Assigns i v es s t u p a = (
    a.0,
    λ id.
        a.1 id
        ∙ assign_cong o laws.quantize es (view o t)
            (λ j. if text_eq i j then some (laws.quantize v) else view o s j) (λ j. p.1 j) id,
  )

  pub insert_edges-Assigns :
      (es : List (Text × o.Vector)) (s : IndexState o)
      → IsValid o s
      → HasRoom o (length es) s.hnsw
      → ((insert_edges o es s).1 ≡ ok tt)
        × Assigns es s (insert_edges o es s).0
        × ((insert_edges o es s).0.metadata ≡ s.metadata)
  unfolding insert_edges
  insert_edges-Assigns [] s w room = (refl, (w, λ id. refl), refl)
  insert_edges-Assigns ((i, v) ∷ es) s w room =
      let t = (add_vector o i v s).0 in
      let (done, p) = add_vector-Puts i v s w (omega arith) in
      let (valid, put, bigger, same, meta) = p in
      let (ends, a, kept) = insert_edges-Assigns es t valid (omega arith) in
      rw (done, insert_edges)
        (ends, Puts-Assigns i v es s t (insert_edges o es t).0 p a, kept ∙ meta)

  -- The new chunks with their vectors, and the chunk table with them.
  abbrev pub pairs : List Chunk → List o.Vector → List (Text × o.Vector)
  pairs [] vs = []
  pairs (c ∷ cs) [] = []
  pairs (c ∷ cs) (v ∷ vs) = (c.id, v) ∷ pairs cs vs

  abbrev pub put_chunks : List Chunk → List (Text × StoredChunk) → List (Text × StoredChunk)
  put_chunks [] m = m
  put_chunks (c ∷ cs) m = put_chunks cs (insert c.id (stored_chunk c) m)

  pub insert_chunks-Assigns :
      (cs : List Chunk) (vs : List o.Vector) (s : IndexState o) (f : StoredFile o)
      → IsValid o s
      → HasRoom o (length cs) s.hnsw
      → length cs ≤ length vs
      → ((insert_chunks o cs vs s f).1
          ≡ ok (record f { chunk_ids = f.chunk_ids ++ map (λ c. c.id) cs }))
        × Assigns (pairs cs vs) s (insert_chunks o cs vs s f).0
        × ((insert_chunks o cs vs s f).0.metadata
            ≡ record s.metadata { chunks = put_chunks cs s.metadata.chunks })
  unfolding insert_chunks
  insert_chunks-Assigns [] vs s f w room enough = (
    ap (λ ids. ok (record f { chunk_ids = ids })) (sym (append-nil f.chunk_ids)),
    (w, λ id. refl),
    refl,
  )
  insert_chunks-Assigns (c ∷ cs) [] s f w room enough = absurd (omega arith)
  insert_chunks-Assigns (c ∷ cs) (v ∷ vs) s f w room enough =
      let t = (add_vector o c.id v s).0 in
      let add_chunks : IndexMetadata o → IndexMetadata o =
        λ m. record m { chunks = put_chunks cs (insert c.id (stored_chunk c) m.chunks) } in
      let g = record f { chunk_ids = f.chunk_ids ++ c.id ∷ [] } in
      let (done, p) = add_vector-Puts c.id v s w (omega arith) in
      let (valid, put, bigger, same, meta) = p in
      let (ends, a, kept) =
        insert_chunks-Assigns cs vs (put_chunk o c t) g valid (omega arith) (omega arith) in
      rw (done, insert_chunks)
        (
          ends
              ∙ ap (λ ids. ok (record f { chunk_ids = ids }))
                  (append_assoc f.chunk_ids (c.id ∷ []) (map (λ d. d.id) cs)),
          Puts-Assigns c.id v (pairs cs vs) s t (insert_chunks o cs vs (put_chunk o c t) g).0 p a,
          kept ∙ ap add_chunks meta,
        )

  -- The reservation makes room and keeps the vectors, or its error is returned.
  pub ensure_capacity-HasRoom :
      (n : ℕ) (h : o.Hnsw)
      → ((g : o.Hnsw) × (ensure_capacity o n h ≡ ok g)
          × HasRoom o n g
          × ((k : ℕ) → o.get k g ≡ o.get k h))
        ⊎ ((e : Text) × (o.capacity h < o.size h + n)
            × (o.reserve (max (o.size h + n) (o.size h * 2)) h ≡ err e)
            × (ensure_capacity o n h ≡ err (usearch_error o (codes "reserve") e)))
  unfolding ensure_capacity
  ensure_capacity-HasRoom n h = elim (Bool-cases (ltb (o.capacity h) (o.size h + n))) [
    | inl small ↦ elim (Result-cases (o.reserve (max (o.size h + n) (o.size h * 2)) h)) [
      | inl (g, e) ↦ inl (
        g,
        rw (small, e, ensure_capacity) refl,
        let size = laws.size_reserve (max (o.size h + n) (o.size h * 2)) h g e in
            let room = laws.room_reserve (max (o.size h + n) (o.size h * 2)) h g e in omega arith,
        λ k. laws.get_reserve (max (o.size h + n) (o.size h * 2)) k h g e,
      )
      | inr (e, failed) ↦ inr (e, ground arith, failed, rw (small, failed, ensure_capacity) refl)
    ]
    | inr large ↦ inl (h, rw (large, ensure_capacity) refl, ground arith, λ k. refl)
  ]

  module _ (s : IndexState o) (g : o.Hnsw) (same : (k : ℕ) → o.get k g ≡ o.get k s.hnsw) where
    pub grown-KeysAreValid : IsValid o s → IsValid o (record s { hnsw = g })
    grown-KeysAreValid w = record {
      below = w.below;
      distinct = w.distinct;
      free = λ k le. same k ∙ w.free k le;
    }

    pub grown_view : (id : Text) → view o (record s { hnsw = g }) id ≡ view o s id
    grown_view id = elim (Option-cases (lookup id s.id_to_key)) [
      | inl absent ↦ rw absent refl
      | inr (k, found) ↦ rw found (same k)
    ]
