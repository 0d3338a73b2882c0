-- ===== src/Batch/Loop.antt =====
-- The loop of `embed_inputs_adaptively`: it ends, and what it has gathered when it does.
use markdown_vdb.Base.{
  ℕ, zero, suc, ◌+◌, ◌-◌, ◌*◌, ◌/◌, ◌≤◌, ◌<◌, false, ◌&&◌, List, [], ◌∷◌, ◌++◌, map, ◌≡◌, refl, ap,
  sym, ◌∙◌, ◌⊎◌, inl, inr, arith, some, Text, length, take, drop, concat, length-append,
  length-take, length-drop, take-append-drop, All, append_assoc, append-nil, ltb, Bool-cases,
}
use mathlib.Core.List.{map-append}
use markdown_vdb.Base.Result.{Result, ok, err, Result-cases}
use markdown_vdb.Batch.{
  Provider, Sizes, Run, Outcome, token_sum, answered, embed_loop, remember_batch_size,
}

-- The requests that a queue can still cause: a batch of `n` texts is cut at most `n - 1` times.
abbrev pub cost : List (List Text) → ℕ
cost [] = 0
cost (b ∷ queue) = (2 * length b - 1) + cost queue

pub cost-le : (queue : List (List Text)) → cost queue ≤ 2 * length (concat queue)
cost-le [] = omega arith
cost-le (b ∷ queue) = omega (arith, cost-le queue, length-append b (concat queue))

module _ {V E : Type 0} (p : Provider V E) (count : Text → ℕ) where
  -- Whatever the provider answers, the loop ends on a queue without empty batches, with fuel for
  -- every request that the queue can cause.
  pub embed_loop-Returns :
      (fuel : ℕ) (queue : List (List Text)) (sizes : Sizes) (r : Run V)
      → All (λ b. 0 < length b) queue
      → cost queue ≤ fuel
      → (o : Outcome V E) × (embed_loop p count fuel queue sizes r ≡ some o)
  unfolding embed_loop
  embed_loop-Returns fuel [] sizes r h f = (record { sizes = sizes; result = ok r }, refl)
  embed_loop-Returns zero (b ∷ queue) sizes r h f = absurd (omega arith)
  embed_loop-Returns (suc fuel) (b ∷ queue) sizes r h f =
      elim (Result-cases (p.embed_batch_for r.api_calls b)) [
        | inl (vectors, e) ↦
            let (o, run) =
              embed_loop-Returns fuel queue sizes (answered p count b vectors r) h.1
                (omega arith) in
            (o, rw (e, embed_loop) run)
        | inr (er, e) ↦ elim (Bool-cases (ltb 1 (length b) && p.is_batch_size_error er)) [
          | inl cut ↦
              let k = length b / 2 in
              let more : 1 < length b = ground arith in
              let (o, run) =
                embed_loop-Returns fuel (take k b ∷ drop k b ∷ queue)
                  (remember_batch_size p.batch_cache_key ((length b + 1) / 2) sizes)
                  (record r { api_calls = r.api_calls + 1 })
                  (omega (arith, length-take k b), (omega (arith, length-drop k b), h.1))
                  (omega (arith, length-take k b, length-drop k b)) in
              (o, rw (e, embed_loop) (rw cut run))
          | inr stop ↦ (record { sizes = sizes; result = err er }, rw (e, embed_loop) (rw stop))
        ]
      ]

token_sum-append :
    (count : Text → ℕ) (a b : List Text)
    → token_sum count (a ++ b) ≡ token_sum count a + token_sum count b
token_sum-append count [] b = omega arith
token_sum-append count (t ∷ a) b = omega (arith, token_sum-append count a b)

module _ {V E : Type 0} (p : Provider V E) (count : Text → ℕ) (vector : Text → V) where
  -- A provider answers with one vector for each text, in order.
  abbrev pub Answers : Type 0
  Answers =
      (n : ℕ) (texts : List Text) (vectors : List V)
      → p.embed_batch_for n texts ≡ ok vectors
      → vectors ≡ map vector texts

  -- What is true at the end of a loop that began with `queue` and `r`.
  abbrev pub Post : List (List Text) → Run V → Result E (Run V) → Type 0
  Post queue r (ok s) =
      (s.embeddings ≡ r.embeddings ++ map vector (concat queue))
      × (s.estimated_input_tokens ≡ r.estimated_input_tokens + token_sum count (concat queue))
      × (r.api_calls + length queue ≤ s.api_calls)
      × (s.api_calls ≤ r.api_calls + cost queue)
  Post queue r (err e) =
      (n : ℕ) × (texts : List Text) × (p.embed_batch_for n texts ≡ err e)
      × ((p.is_batch_size_error e ≡ false) ⊎ (length texts ≤ 1))

  Post-answered :
      (b : List Text) (vectors : List V) (queue : List (List Text)) (r : Run V)
      (out : Result E (Run V))
      → 0 < length b
      → vectors ≡ map vector b
      → Post queue (answered p count b vectors r) out
      → Post (b ∷ queue) r out
  unfolding answered
  Post-answered b vectors queue r (err e) h v q = q
  Post-answered b vectors queue r (ok s) h v q = (
    q.0
        ∙ append_assoc r.embeddings vectors (map vector (concat queue))
        ∙ ap (λ t. r.embeddings ++ (t ++ map vector (concat queue))) v
        ∙ ap (λ t. r.embeddings ++ t) (sym (map-append vector b (concat queue))),
    omega (arith, token_sum-append count b (concat queue)),
    omega arith,
    omega arith,
  )

  Post-halved :
      (b : List Text) (queue : List (List Text)) (r : Run V) (out : Result E (Run V))
      → 1 < length b
      → Post
          (take (length b / 2) b ∷ drop (length b / 2) b ∷ queue)
          (record r { api_calls = r.api_calls + 1 })
          out
      → Post (b ∷ queue) r out
  Post-halved b queue r (err e) h q = q
  Post-halved b queue r (ok s) h q =
      let k = length b / 2 in
      let whole : take k b ++ (drop k b ++ concat queue) ≡ b ++ concat queue =
        sym (append_assoc (take k b) (drop k b) (concat queue))
        ∙ ap (λ t. t ++ concat queue) (take-append-drop k b) in
      (
        q.0 ∙ ap (λ t. r.embeddings ++ map vector t) whole,
        q.1 ∙ ap (λ t. r.estimated_input_tokens + token_sum count t) whole,
        omega arith,
        omega (arith, length-take k b, length-drop k b),
      )

  -- On a queue without empty batches, with fuel for every request that the queue can cause, the
  -- loop ends.
  pub embed_loop-Post :
      Answers
      → (fuel : ℕ) (queue : List (List Text)) (sizes : Sizes) (r : Run V)
      → All (λ b. 0 < length b) queue
      → cost queue ≤ fuel
      → (o : Outcome V E) × (embed_loop p count fuel queue sizes r ≡ some o) × Post queue r o.result
  unfolding embed_loop
  embed_loop-Post ans fuel [] sizes r h f = (
    record { sizes = sizes; result = ok r },
    refl,
    (sym (append-nil r.embeddings), omega arith, omega arith, omega arith),
  )
  embed_loop-Post ans zero (b ∷ queue) sizes r h f = absurd (omega arith)
  embed_loop-Post ans (suc fuel) (b ∷ queue) sizes r h f =
      elim (Result-cases (p.embed_batch_for r.api_calls b)) [
        | inl (vectors, e) ↦
            let (o, run, post) =
              embed_loop-Post ans fuel queue sizes (answered p count b vectors r) h.1
                (omega arith) in
            (
              o,
              rw (e, embed_loop) run,
              Post-answered b vectors queue r o.result h.0 (ans r.api_calls b vectors e) post,
            )
        | inr (er, e) ↦ elim (Bool-cases (ltb 1 (length b) && p.is_batch_size_error er)) [
          | inl cut ↦
              let k = length b / 2 in
              let more : 1 < length b = ground arith in
              let (o, run, post) =
                embed_loop-Post ans fuel (take k b ∷ drop k b ∷ queue)
                  (remember_batch_size p.batch_cache_key ((length b + 1) / 2) sizes)
                  (record r { api_calls = r.api_calls + 1 })
                  (omega (arith, length-take k b), (omega (arith, length-drop k b), h.1))
                  (omega (arith, length-take k b, length-drop k b)) in
              (o, rw (e, embed_loop) (rw cut run), Post-halved b queue r o.result more post)
          | inr stop ↦ (
            record { sizes = sizes; result = err er },
            rw (e, embed_loop) (rw stop),
            (r.api_calls, b, e, ground arith),
          )
        ]
      ]
