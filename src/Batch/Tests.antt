-- ===== src/Batch/Tests.antt =====
-- Runs of the embedding loop against a provider that takes two texts at a time.
use markdown_vdb.Base.{
  Bool, true, List, [], ◌∷◌, map, ◌≡◌, refl, some, Text, text_eq, length, leb, if◌then◌else◌, arith,
}
use markdown_vdb.Base.Strings.{codes}
use markdown_vdb.Base.Result.{ok, err}
use markdown_vdb.Batch.{Provider, Run, Outcome, embed_inputs_adaptively}
use markdown_vdb.Batch.Adaptive.{
  HasLimit, HasLimit-Answers, Embeds, embed_inputs_adaptively-Embeds,
  embed_inputs_adaptively-HasLimit,
}
use markdown_vdb.Batch.Cache.{Shrinks, embed_inputs_adaptively-Shrinks}

-- A vector is the text itself, and the only error is that of the size.
abbrev two_at_a_time : Provider Text Bool
two_at_a_time = record {
  batch_cache_key = codes "test";
  embed_batch_for = λ n texts. if leb (length texts) 2 then ok texts else err true;
  is_batch_size_error = λ e. e;
}

abbrev five : List Text
five = codes "a" ∷ codes "bb" ∷ codes "ccc" ∷ codes "d" ∷ codes "e" ∷ []

-- Five texts are refused, then two are taken, three refused, and so on.
run_five :
    embed_inputs_adaptively two_at_a_time length [] five
    ≡ some (record {
      sizes = (codes "test", 2) ∷ [];
      result = ok (record { embeddings = five; api_calls = 5; estimated_input_tokens = 8 });
    })
unfolding embed_inputs_adaptively text_eq
run_five = refl

map_same : (xs : List Text) → xs ≡ map (λ t. t) xs
map_same [] = refl
map_same (x ∷ xs) = rw (← map_same xs)

two_at_a_time-HasLimit : HasLimit two_at_a_time length (λ t. t) 2
two_at_a_time-HasLimit n texts =
    (λ h. rw (← map_same texts) (ground arith), λ h. (true, ground arith, refl))

embed_inputs_adaptively-Embeds_example :
    (o : Outcome Text Bool) × (embed_inputs_adaptively two_at_a_time length [] five ≡ some o)
    × Embeds two_at_a_time length (λ t. t) five o.result
embed_inputs_adaptively-Embeds_example =
    embed_inputs_adaptively-Embeds two_at_a_time length (λ t. t)
      (HasLimit-Answers two_at_a_time length (λ t. t) 2 two_at_a_time-HasLimit) [] five

embed_inputs_adaptively-HasLimit_example :
    (o : Outcome Text Bool) × (s : Run Text) × (embed_inputs_adaptively two_at_a_time length [] five
      ≡ some o)
    × (o.result ≡ ok s)
    × (s.embeddings ≡ map (λ t. t) five)
embed_inputs_adaptively-HasLimit_example =
    embed_inputs_adaptively-HasLimit two_at_a_time length (λ t. t) 2 two_at_a_time-HasLimit
      (omega arith) [] five

embed_inputs_adaptively-Shrinks_example :
    (o : Outcome Text Bool) × (embed_inputs_adaptively two_at_a_time length [] five ≡ some o)
    × Shrinks [] o.sizes
embed_inputs_adaptively-Shrinks_example =
    embed_inputs_adaptively-Shrinks two_at_a_time length [] five
