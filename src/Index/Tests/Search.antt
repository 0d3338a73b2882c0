-- ===== src/Index/Tests/Search.antt =====
-- A search on a small index.
use markdown_vdb.Base.{ℕ, ◌-◌, [], ◌∷◌, text_key, take, leb, ◌≡◌, refl}
use markdown_vdb.Base.Strings.{starts_with, strip_prefix}
use markdown_vdb.Base.Sort.{sort_by}
use markdown_vdb.Base.Result.{ok}
use markdown_vdb.Index.Search.{
  Nearest, search_vectors, chunk_id_projection, collect_vector_search_indices, collect_indices,
  index_of, named, id_at,
}
use markdown_vdb.Index.Search.Found.{Finds, search_vectors-Finds}
use markdown_vdb.Index.Tests.{outside, start, first}

-- The vectors in the order of the list, with their values as distances.
abbrev nearest : Nearest outside
nearest = record {
  Query = ℕ;
  Distance = ℕ;
  Score = ℕ;
  search = λ q n h. ok (take n h.vectors);
  score = λ d. 100 - d;
  score_ge = λ a b. leb b a;
}

-- The edge is not among the results.
search_run : search_vectors outside nearest 0 5 start ≡ ok ((first, 80) ∷ [])
unfolding search_vectors chunk_id_projection collect_vector_search_indices collect_indices index_of
    named id_at sort_by starts_with strip_prefix
search_run = refl

search_vectors-Finds_example :
    Finds outside nearest start.id_to_key 5 (search_vectors outside nearest 0 5 start)
search_vectors-Finds_example = search_vectors-Finds outside nearest 0 5 start
