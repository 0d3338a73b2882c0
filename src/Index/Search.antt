-- ===== src/Index/Search.antt =====
-- The vector search of src/index/state.rs over chunks: which identifiers it can return.
pub mod Found
use package.markdown_vdb.Base.{
  ℕ, zero, suc, ◌+◌, ◌*◌, min, Bool, true, false, ◌||◌, not, List, [], ◌∷◌, ◌++◌, map, filter,
  Option, none, some, Text, length, take, leb, ◌==◌, if◌then◌else◌,
}
use package.markdown_vdb.Base.Strings.{codes, starts_with}
use package.markdown_vdb.Base.Sort.{sort_by}
use package.markdown_vdb.Base.Result.{Result, ok, err}
use package.markdown_vdb.Index.{Error, serialization, panicked, Outside, IndexState}

-- The search of usearch, and the scores: `score` is `1.0 - distance`, and `score_ge` says that a
-- score is not behind another one in descending order.
pub record Nearest (o : Outside) : Type 1 where
  pub Query : Type 0
  pub Distance : Type 0
  pub Score : Type 0
  pub search : Query → ℕ → o.Hnsw → Result Text (List (ℕ × Distance))
  pub score : Distance → Score
  pub score_ge : Score → Score → Bool

abbrev pub is_edge : Text → Bool
is_edge id = starts_with (codes "edge:") id

-- `chunk_id_projection`: the keys and identifiers of chunks, in the order of the keys.
abbrev key_le : ℕ × Text → ℕ × Text → Bool
key_le a b = leb a.0 b.0

unfoldable pub chunk_id_projection : List (Text × ℕ) → List (ℕ × Text)
unfolding sort_by starts_with
chunk_id_projection id_to_key =
    sort_by key_le (map (λ p. (p.1, p.0)) (filter (λ p. not (is_edge p.0)) id_to_key))

-- `key_to_id_index.get`, from a position on; the keys of identifiers are distinct.
unfoldable pub index_of : ℕ → ℕ → List (ℕ × Text) → Option ℕ
index_of key i [] = none
index_of key i ((k, id) ∷ ids) = if k == key then some i else index_of key (i + 1) ids

-- `ids[i]`, which panics where there is none.
unfoldable pub id_at : ℕ → List (ℕ × Text) → Result Error Text
id_at i [] = err panicked
id_at zero ((k, id) ∷ ids) = ok id
id_at (suc i) ((k, id) ∷ ids) = id_at i ids

module _ (o : Outside) (nearest : Nearest o) where
  -- The loop over the results of the search.
  unfoldable pub collect_indices :
      List (ℕ × Text) → List (ℕ × nearest.Distance) → List (ℕ × nearest.Score)
  unfolding index_of
  collect_indices ids [] = []
  collect_indices ids ((key, distance) ∷ results) =
      let rest = collect_indices ids results in
      elim (index_of key 0 ids) [ none ↦ rest | some i ↦ (i, nearest.score distance) ∷ rest ]

  abbrev pub by_score : ℕ × nearest.Score → ℕ × nearest.Score → Bool
  by_score a b = nearest.score_ge a.1 b.1

  unfoldable pub collect_vector_search_indices :
      o.Hnsw → List (ℕ × Text) → nearest.Query → ℕ → ℕ → Result Error (List (ℕ × nearest.Score))
  unfolding collect_indices sort_by
  collect_vector_search_indices hnsw ids query limit search_limit =
      let searched : Result Error (List (ℕ × nearest.Score)) =
        elim (nearest.search query (min search_limit (o.size hnsw)) hnsw) [
          | err e ↦ err (serialization (codes "usearch search: " ++ e))
          | ok results ↦ ok (take limit (sort_by by_score (collect_indices ids results)))
        ] in
      if limit == 0 || length ids == 0 then ok [] else searched

  -- The identifiers of the matches.
  unfoldable pub named :
      List (ℕ × Text) → List (ℕ × nearest.Score) → Result Error (List (Text × nearest.Score))
  unfolding id_at
  named ids [] = ok []
  named ids ((i, score) ∷ ms) =
      let rest = named ids ms in
      elim (id_at i ids) [
        | err e ↦ err e
        | ok id ↦ elim rest [ err e ↦ err e | ok out ↦ ok ((id, score) ∷ out) ]
      ]

  unfoldable pub search_vectors :
      nearest.Query → ℕ → IndexState o → Result Error (List (Text × nearest.Score))
  unfolding chunk_id_projection collect_vector_search_indices named
  search_vectors query limit s =
      let ids = chunk_id_projection s.id_to_key in
      let requested = min limit (length ids) in
      let search_limit =
        if requested == length ids then o.size s.hnsw else min (requested * 2) (o.size s.hnsw) in
      let found : Result Error (List (Text × nearest.Score)) =
        elim (collect_vector_search_indices s.hnsw ids query limit search_limit) [
          | err e ↦ err e
          | ok matches ↦ named ids matches
        ] in
      if o.size s.hnsw == 0 then ok [] else found
