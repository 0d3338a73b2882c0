-- ===== src/Batch.antt =====
-- src/embedding/batch.rs: requests to an embedding provider, in batches that shrink when the
-- provider refuses their size.
pub mod Chunks
pub mod Loop
pub mod Cache
pub mod Adaptive
mod Tests
use package.markdown_vdb.Base.{
  ℕ, zero, suc, ◌+◌, ◌-◌, ◌*◌, ◌/◌, min, max, Bool, true, false, ◌&&◌, List, [], ◌∷◌, ◌++◌, Option,
  none, some, if◌then◌else◌, ltb, Text, text_key, length, take, drop, is_empty,
}
use package.markdown_vdb.Base.Map.{lookup, insert}
use package.markdown_vdb.Base.Result.{Result, ok, err}
use Chunks.{chunks}

-- A provider, after the trait `EmbeddingProvider`: `embed_batch_for n texts` is its answer to the
-- request that follows `n` earlier ones. `V` is the type of vectors, `E` that of errors.
pub record Provider (V E : Type 0) : Type 0 where
  pub batch_cache_key : Text
  pub embed_batch_for : ℕ → List Text → Result E (List V)
  pub is_batch_size_error : E → Bool

-- `WORKING_BATCH_SIZES`, by cache key.
abbrev pub Sizes : Type 0
Sizes = List (Text × ℕ)

abbrev or_configured : ℕ → Option ℕ → ℕ
or_configured configured none = configured
or_configured configured (some size) = size

unfoldable pub working_batch_size : Text → Sizes → ℕ → ℕ
unfolding lookup
working_batch_size key sizes configured =
    max (min (or_configured configured (lookup key sizes)) configured) 1

unfoldable pub remember_batch_size : Text → ℕ → Sizes → Sizes
unfolding lookup insert
remember_batch_size key size sizes =
    insert key (elim (lookup key sizes) [ none ↦ size | some current ↦ min current size ]) sizes

-- The variables of `embed_inputs_adaptively`.
pub record Run (V : Type 0) : Type 0 where
  pub embeddings : List V
  pub api_calls : ℕ
  pub estimated_input_tokens : ℕ

-- Their values at the start.
abbrev pub empty_run : {V : Type 0} → Run V
empty_run = record { embeddings = []; api_calls = 0; estimated_input_tokens = 0 }

-- What a call leaves in the cache, and what it returns.
pub record Outcome (V E : Type 0) : Type 0 where
  pub sizes : Sizes
  pub result : Result E (Run V)

abbrev pub token_sum : (Text → ℕ) → List Text → ℕ
token_sum count [] = 0
token_sum count (t ∷ ts) = count t + token_sum count ts

module _ {V E : Type 0} (p : Provider V E) (count_tokens : Text → ℕ) where
  -- The arm `Ok(vectors)`.
  pub answered : List Text → List V → Run V → Run V
  answered texts vectors r = record {
    embeddings = r.embeddings ++ vectors;
    api_calls = r.api_calls + 1;
    estimated_input_tokens = r.estimated_input_tokens + token_sum count_tokens texts;
  }

  -- The `while let` loop; `none` says that the fuel ran out.
  pub embed_loop : ℕ → List (List Text) → Sizes → Run V → Option (Outcome V E)
  unfolding answered
  embed_loop fuel [] sizes r = some (record { sizes = sizes; result = ok r })
  embed_loop zero (texts ∷ queue) sizes r = none
  embed_loop (suc fuel) (texts ∷ queue) sizes r = elim (p.embed_batch_for r.api_calls texts) [
    | ok vectors ↦ embed_loop fuel queue sizes (answered texts vectors r)
    | err e ↦
        let halved =
          embed_loop fuel (take (length texts / 2) texts ∷ drop (length texts / 2) texts ∷ queue)
            (remember_batch_size p.batch_cache_key ((length texts + 1) / 2) sizes)
            (record r { api_calls = r.api_calls + 1 }) in
        let refused = some (record { sizes = sizes; result = err e }) in
        if ltb 1 (length texts) && p.is_batch_size_error e then halved else refused
  ]

  -- Each request either answers a batch or cuts one in two, so there are fewer than twice as many
  -- requests as texts.
  unfoldable pub embed_inputs_adaptively : Sizes → List Text → Option (Outcome V E)
  unfolding embed_loop working_batch_size remember_batch_size chunks
  embed_inputs_adaptively sizes texts =
      if is_empty texts
      then some (record { sizes = sizes; result = ok empty_run })
      else embed_loop (2 * length texts)
          (chunks (length texts) (working_batch_size p.batch_cache_key sizes (length texts)) texts)
          sizes empty_run
