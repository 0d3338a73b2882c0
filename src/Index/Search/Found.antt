-- ===== src/Index/Search/Found.antt =====
-- What a search over chunks can return.
use markdown_vdb.Base.{
  ℕ, zero, suc, ◌+◌, ◌*◌, ◌≤◌, min, false, ◌||◌, not, List, [], ◌∷◌, ◌++◌, map, filter, Option,
  some, Text, length, take, length-take, ◌==◌, ◌≡◌, refl, ap, inl, inr, ◌⊎◌, ◌∈◌, arith, All,
  All-mem, Bool-cases, Option-cases, if◌then◌else◌,
}
use markdown_vdb.Base.Strings.{codes}
use markdown_vdb.Base.Sort.{sort_by, mem-sort_by}
use markdown_vdb.Base.Result.{Result, ok, err, Result-cases}
use markdown_vdb.Index.{Error, serialization, Outside, IndexState}
use markdown_vdb.Index.Search.{
  Nearest, is_edge, key_le, chunk_id_projection, index_of, id_at, collect_indices, by_score,
  collect_vector_search_indices, named, search_vectors,
}

All-members : {A : Type 0} (P : A → Type 0) (xs : List A) → ((a : A) → a ∈ xs → P a) → All P xs
All-members P [] h = tt
All-members P (x ∷ xs) h = (h x (inl refl), All-members P xs (λ a m. h a (inr m)))

All-take : {A : Type 0} (P : A → Type 0) (n : ℕ) (xs : List A) → All P xs → All P (take n xs)
All-take P zero xs h = tt
All-take P (suc n) [] h = tt
All-take P (suc n) (x ∷ xs) h = (h.0, All-take P n xs h.1)

-- A position that was looked up is that of an identifier.
index_of-id_at :
    (key i j : ℕ) (ids : List (ℕ × Text))
    → index_of key i ids ≡ some j
    → (n : ℕ) × (j ≡ i + n) × (id : Text) × (id_at n ids ≡ ok id) × ((key, id) ∈ ids)
unfolding index_of id_at
index_of-id_at key i j [] h = absurd (cc h)
index_of-id_at key i j ((k, id) ∷ ids) h = elim (Bool-cases (k == key)) [
  | inl here ↦
      let first : i ≡ j = same i j (rw (here, index_of) at h) in
      let k_is : key ≡ k = ground arith in (0, omega arith, id, refl, inl (ap (λ x. (x, id)) k_is))
  | inr later ↦
      let (n, at_n, found, read, mem) =
        index_of-id_at key (i + 1) j ids (rw (later, index_of) at h) in
      (suc n, omega arith, found, read, inr mem)
]
  where
    same : (a b : ℕ) → ◌≡◌ {A = Option ℕ} (some a) (some b) → a ≡ b
    same a b e = cc e

mem-map_swap :
    (key : ℕ) (id : Text) (m : List (Text × ℕ))
    → ◌∈◌ {A = ℕ × Text} (key, id) (map (λ p. (p.1, p.0)) m)
    → (id, key) ∈ m
mem-map_swap key id [] h = absurd h
mem-map_swap key id (p ∷ m) (inl e) = inl (ap (λ q. (q.1, q.0)) e)
mem-map_swap key id (p ∷ m) (inr h) = inr (mem-map_swap key id m h)

mem-filter_edges :
    (p : Text × ℕ) (m : List (Text × ℕ))
    → p ∈ filter (λ q. not (is_edge q.0)) m
    → (is_edge p.0 ≡ false) × (p ∈ m)
mem-filter_edges p [] h = absurd h
mem-filter_edges p (q ∷ m) h = elim (Bool-cases (is_edge q.0)) [
  | inl edge ↦ let (e, n) = mem-filter_edges p m (rw edge at h) in (e, inr n)
  | inr chunk ↦ elim (rw chunk at h) [
    | inl same ↦ (rw same chunk, inl same)
    | inr rest ↦ let (e, n) = mem-filter_edges p m rest in (e, inr n)
  ]
]

-- The identifier of a chunk that has a key.
abbrev pub IsChunk : List (Text × ℕ) → Text → Type 0
IsChunk id_to_key id = (is_edge id ≡ false) × (key : ℕ) × ((id, key) ∈ id_to_key)

projected :
    (key : ℕ) (id : Text) (m : List (Text × ℕ)) → (key, id) ∈ chunk_id_projection m → IsChunk m id
unfolding chunk_id_projection
projected key id m h =
    let chunks = filter (λ q. not (is_edge q.0)) m in
    let unsorted = (mem-sort_by key_le (key, id) (map (λ p. (p.1, p.0)) chunks)).0 h in
    let (e, n) = mem-filter_edges (id, key) m (mem-map_swap key id chunks unsorted) in (e, key, n)

module _ (o : Outside) (nearest : Nearest o) (m : List (Text × ℕ)) where
  abbrev ids : List (ℕ × Text)
  ids = chunk_id_projection m

  -- A position in the table, of a chunk.
  abbrev IsMatch : ℕ × nearest.Score → Type 0
  IsMatch p = (id : Text) × (id_at p.0 ids ≡ ok id) × IsChunk m id

  collected :
      (results : List (ℕ × nearest.Distance)) → All IsMatch (collect_indices o nearest ids results)
  unfolding collect_indices
  collected [] = tt
  collected ((key, distance) ∷ results) = elim (Option-cases (index_of key 0 ids)) [
    | inl unknown ↦ rw (unknown, collect_indices) (collected results)
    | inr (j, known) ↦
        let (n, at_n, id, read, mem) = index_of-id_at key 0 j ids known in
        let same : j ≡ n = omega arith in
        rw (known, collect_indices) ((id, rw same read, projected key id m mem), collected results)
  ]

  -- All matches are named.
  named-ok :
      (ms : List (ℕ × nearest.Score))
      → All IsMatch ms
      → (out : List (Text × nearest.Score)) × (named o nearest ids ms ≡ ok out)
        × (length out ≡ length ms)
        × All (λ p. IsChunk m p.0) out
  unfolding named
  named-ok [] h = ([], refl, refl, tt)
  named-ok ((i, score) ∷ ms) ((id, read, chunk), h) =
      let (out, rest, size, all) = named-ok ms h in
      ((id, score) ∷ out, rw (read, rest, named) refl, ap suc size, (chunk, all))

module _ (o : Outside) (nearest : Nearest o) where
  -- What the search can come to.
  abbrev pub Finds : List (Text × ℕ) → ℕ → Result Error (List (Text × nearest.Score)) → Type 0
  Finds m limit out =
      ((found : List (Text × nearest.Score)) × (out ≡ ok found)
        × (length found ≤ limit)
        × All (λ p. IsChunk m p.0) found)
      ⊎ ((e : Text) × (out ≡ err (serialization (codes "usearch search: " ++ e))))

  -- The matches of the search by positions.
  FindsIndices : List (Text × ℕ) → ℕ → Result Error (List (ℕ × nearest.Score)) → Type 0
  FindsIndices m limit out =
      ((found : List (ℕ × nearest.Score)) × (out ≡ ok found)
        × (length found ≤ limit)
        × All (IsMatch o nearest m) found)
      ⊎ ((e : Text) × (out ≡ err (serialization (codes "usearch search: " ++ e))))

  collect-FindsIndices :
      (h : o.Hnsw) (m : List (Text × ℕ)) (query : nearest.Query) (limit window : ℕ)
      → FindsIndices m limit
          (collect_vector_search_indices o nearest h (chunk_id_projection m) query limit window)
  unfolding collect_vector_search_indices FindsIndices
  collect-FindsIndices h m query limit window =
      elim (Bool-cases (limit == 0 || length (chunk_id_projection m) == 0)) [
        | inl nothing ↦
            rw (nothing, collect_vector_search_indices) (inl ([], refl, omega arith, tt))
        | inr some_chunk ↦ elim (Result-cases (nearest.search query (min window (o.size h)) h)) [
          | inr (e, failed) ↦ rw (some_chunk, failed, collect_vector_search_indices) (inr (e, refl))
          | inl (results, found) ↦
              let unsorted = collect_indices o nearest (chunk_id_projection m) results in
              let all = sorted_matches unsorted (collected o nearest m results) in
              let size = length-take limit (sort_by (by_score o nearest) unsorted) in
              rw (some_chunk, found, collect_vector_search_indices)
                (inl (
                  take limit (sort_by (by_score o nearest) unsorted),
                  refl,
                  omega arith,
                  All-take (IsMatch o nearest m) limit (sort_by (by_score o nearest) unsorted) all,
                ))
        ]
      ]
    where
      sorted_matches :
          (ms : List (ℕ × nearest.Score))
          → All (IsMatch o nearest m) ms
          → All (IsMatch o nearest m) (sort_by (by_score o nearest) ms)
      sorted_matches ms h =
          All-members (IsMatch o nearest m) (sort_by (by_score o nearest) ms) (λ a mem.
            All-mem (IsMatch o nearest m) a ms h ((mem-sort_by (by_score o nearest) a ms).0 mem))

  -- A search over chunks finds no more than the limit, and only identifiers that have a key and
  -- are not those of edges, or it gives the error of the vector index; no position in the table
  -- of identifiers is out of range.
  pub search_vectors-Finds :
      (query : nearest.Query) (limit : ℕ) (s : IndexState o)
      → Finds s.id_to_key limit (search_vectors o nearest query limit s)
  unfolding search_vectors FindsIndices
  search_vectors-Finds query limit s =
      let ids = chunk_id_projection s.id_to_key in
      let requested = min limit (length ids) in
      let window =
        if requested == length ids then o.size s.hnsw else min (requested * 2) (o.size s.hnsw) in
      elim (Bool-cases (o.size s.hnsw == 0)) [
        | inl empty ↦ rw (empty, search_vectors) (inl ([], refl, omega arith, tt))
        | inr filled ↦ elim (collect-FindsIndices s.hnsw s.id_to_key query limit window) [
          | inr (e, failed) ↦ rw (filled, failed, search_vectors) (inr (e, refl))
          | inl (ms, found, size, all) ↦
              let (out, names, same, chunks) = named-ok o nearest s.id_to_key ms all in
              rw (filled, found, names, search_vectors) (inl (out, refl, omega arith, chunks))
        ]
      ]
