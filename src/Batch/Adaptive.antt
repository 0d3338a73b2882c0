-- ===== src/Batch/Adaptive.antt =====
-- What `embed_inputs_adaptively` returns.
use markdown_vdb.Base.{
  ℕ, ◌*◌, ◌≤◌, ◌<◌, true, false, List, [], ◌∷◌, map, ◌≡◌, refl, sym, ap, ◌∙◌, ◌⊎◌, inl, inr, arith,
  some, Text, length, concat, leb, Bool-cases, leb→le, leb→lt, All-map,
}
use markdown_vdb.Base.Result.{Result, ok, err}
use markdown_vdb.Batch.{
  Provider, Sizes, Run, Outcome, empty_run, token_sum, embed_inputs_adaptively, working_batch_size,
}
use markdown_vdb.Batch.Cache.{working_batch_size_bounds}
use markdown_vdb.Batch.Chunks.{chunks, concat-chunks, chunks-length}
use markdown_vdb.Batch.Loop.{cost-le, Answers, Post, embed_loop-Post}

module _ {V E : Type 0} (p : Provider V E) (count : Text → ℕ) (vector : Text → V) where
  -- A result has one vector for each text in order, the tokens of all texts, and fewer than twice
  -- as many requests as texts; an error is a provider's answer that no smaller batch can avoid.
  abbrev pub Embeds : List Text → Result E (Run V) → Type 0
  Embeds texts (ok s) =
      (s.embeddings ≡ map vector texts)
      × (s.estimated_input_tokens ≡ token_sum count texts)
      × (s.api_calls ≤ 2 * length texts)
  Embeds texts (err e) =
      (n : ℕ) × (asked : List Text) × (p.embed_batch_for n asked ≡ err e)
      × ((p.is_batch_size_error e ≡ false) ⊎ (length asked ≤ 1))

  Post-Embeds :
      (queue : List (List Text)) (texts : List Text) (out : Result E (Run V))
      → concat queue ≡ texts
      → Post p count vector queue empty_run out
      → Embeds texts out
  Post-Embeds queue texts (err e) c q = q
  Post-Embeds queue texts (ok s) c q = (
    q.0 ∙ ap (map vector) c,
    omega (arith, ap (token_sum count) c),
    omega (arith, cost-le queue, ap (λ t. 2 * length t) c),
  )

  -- For a provider that answers a batch with one vector for each text in order,
  -- `embed_inputs_adaptively` always returns: with the vectors of all texts in order, their token
  -- count and at most two requests for each text, or with an error that the provider gave to a
  -- batch and that is no size error or came for a single text.
  pub embed_inputs_adaptively-Embeds :
      Answers p count vector
      → (sizes : Sizes) (texts : List Text)
      → (o : Outcome V E) × (embed_inputs_adaptively p count sizes texts ≡ some o)
        × Embeds texts o.result
  unfolding embed_inputs_adaptively
  embed_inputs_adaptively-Embeds ans sizes [] =
      (record { sizes = sizes; result = ok empty_run }, refl, (refl, refl, omega arith))
  embed_inputs_adaptively-Embeds ans sizes (t ∷ ts) =
      let texts = t ∷ ts in
      let size = working_batch_size p.batch_cache_key sizes (length texts) in
      let pos = (working_batch_size_bounds p.batch_cache_key sizes (length texts)).0 in
      let queue = chunks (length texts) size texts in
      let whole = concat-chunks (length texts) size texts pos (omega arith) in
      let (o, run, post) =
        embed_loop-Post p count vector ans (2 * length texts) queue sizes empty_run
          (All-map (λ b h. h.0) queue (chunks-length (length texts) size texts pos))
          (omega (arith, cost-le queue, ap (λ u. 2 * length u) whole)) in
      (o, run, Post-Embeds queue texts o.result whole post)

  -- The provider takes every batch of up to `limit` texts, and answers longer ones by a size error.
  abbrev pub HasLimit : ℕ → Type 0
  HasLimit limit =
      (n : ℕ) (texts : List Text)
      → (length texts ≤ limit → p.embed_batch_for n texts ≡ ok (map vector texts))
        × (limit < length texts
            → (e : E) × (p.embed_batch_for n texts ≡ err e) × (p.is_batch_size_error e ≡ true))

  pub HasLimit-Answers : (limit : ℕ) → HasLimit limit → Answers p count vector
  HasLimit-Answers limit h n texts vectors e = elim (Bool-cases (leb (length texts) limit)) [
    | inl fits ↦ ok_injective (sym e ∙ (h n texts).0 (leb→le (length texts) limit fits))
    | inr long ↦
        let (er, refused, _) = (h n texts).1 (leb→lt (length texts) limit long) in
        absurd (ok_err (sym e ∙ refused))
  ]
    where
      ok_injective : {a b : List V} → ◌≡◌ {A = Result E (List V)} (ok a) (ok b) → a ≡ b
      ok_injective q = cc

      ok_err : {a : List V} {er : E} → ok a ≡ err er → ⊥
      ok_err q = cc

  Embeds-HasLimit :
      (limit : ℕ) (texts : List Text) (out : Result E (Run V))
      → HasLimit limit
      → 0 < limit
      → Embeds texts out
      → (s : Run V) × (out ≡ ok s) × (s.embeddings ≡ map vector texts)
  Embeds-HasLimit limit texts (ok s) h pos q = (s, refl, q.0)
  Embeds-HasLimit limit texts (err e) h pos (n, asked, refused, why) =
      elim (Bool-cases (leb (length asked) limit)) [
        | inl fits ↦ absurd (clash ((h n asked).0 (leb→le (length asked) limit fits)))
        | inr long ↦
            let (er, refused', size_error) = (h n asked).1 (leb→lt (length asked) limit long) in
            absurd (forced (leb→lt (length asked) limit long) refused' size_error)
      ]
    where
      clash : p.embed_batch_for n asked ≡ ok (map vector asked) → ⊥
      clash q = cc

      forced :
          {er : E}
          → limit < length asked
          → p.embed_batch_for n asked ≡ err er
          → p.is_batch_size_error er ≡ true
          → ⊥
      forced {er} l q s = ground arith

  -- A limit on the size of requests is always worked around: if the provider takes every batch of
  -- up to `limit` texts, `limit` not zero, and refuses longer ones by a size error, then
  -- `embed_inputs_adaptively` succeeds, with the vectors of all texts in order.
  pub embed_inputs_adaptively-HasLimit :
      (limit : ℕ)
      → HasLimit limit
      → 0 < limit
      → (sizes : Sizes) (texts : List Text)
      → (o : Outcome V E) × (s : Run V) × (embed_inputs_adaptively p count sizes texts ≡ some o)
        × (o.result ≡ ok s)
        × (s.embeddings ≡ map vector texts)
  embed_inputs_adaptively-HasLimit limit h pos sizes texts =
      let (o, run, post) = embed_inputs_adaptively-Embeds (HasLimit-Answers limit h) sizes texts in
      let (s, done, all) = Embeds-HasLimit limit texts o.result h pos post in (o, s, run, done, all)
