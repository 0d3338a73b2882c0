-- ===== src/Batch/Cache.antt =====
-- The cache of batch sizes that worked.
use markdown_vdb.Base.{
  ℕ, zero, suc, ◌+◌, ◌*◌, ◌/◌, ◌≤◌, max, ◌&&◌, List, [], ◌∷◌, ◌≡◌, ap, subst, inl, inr, arith,
  Option, none, some, Text, text_key, text_eq_iff, length, refl, All-map, take, drop, ltb,
  Bool-cases,
}
use markdown_vdb.Base.Map.{lookup-insert}
use markdown_vdb.Base.Result.{ok, Result-cases}
use markdown_vdb.Batch.Chunks.{chunks, concat-chunks, chunks-length}
use markdown_vdb.Batch.Loop.{cost-le, embed_loop-Returns}
use markdown_vdb.Batch.{
  Provider, Sizes, Run, Outcome, empty_run, answered, embed_loop, working_batch_size,
  remember_batch_size, embed_inputs_adaptively,
}

-- `working_batch_size` is at least one, so that `chunks` has a legal size, and at most the
-- configured size, unless that is zero.
pub working_batch_size_bounds :
    (key : Text) (sizes : Sizes) (configured : ℕ)
    → (1 ≤ working_batch_size key sizes configured)
      × (working_batch_size key sizes configured ≤ max configured 1)
unfolding working_batch_size
working_batch_size_bounds key sizes configured = (omega arith, omega arith)

-- A call that works with `after` uses batches no larger than one that works with `before`.
abbrev pub Shrinks : Sizes → Sizes → Type 0
Shrinks before after =
    (key : Text) (configured : ℕ)
    → working_batch_size key after configured ≤ working_batch_size key before configured

Shrinks-refl : (sizes : Sizes) → Shrinks sizes sizes
Shrinks-refl sizes key configured = omega arith

Shrinks-trans : (a b c : Sizes) → Shrinks a b → Shrinks b c → Shrinks a c
Shrinks-trans a b c h k key configured = omega (arith, h key configured, k key configured)

remember_batch_size-Shrinks :
    (key : Text) (size : ℕ) (sizes : Sizes) → Shrinks sizes (remember_batch_size key size sizes)
unfolding working_batch_size remember_batch_size
remember_batch_size-Shrinks key size sizes k configured =
    rw lookup-insert (ground (arith, text_eq_iff key k))

module _ {V E : Type 0} (p : Provider V E) (count : Text → ℕ) where
  -- The cache that a finished call leaves.
  sizes_of : Option (Outcome V E) → Sizes
  sizes_of none = []
  sizes_of (some o) = o.sizes

  Shrinks-some :
      (sizes : Sizes) (o o' : Outcome V E)
      → some o' ≡ some o
      → Shrinks sizes o'.sizes
      → Shrinks sizes o.sizes
  unfolding sizes_of
  Shrinks-some sizes o o' h = subst (Shrinks sizes) (ap sizes_of h)

  embed_loop-Shrinks :
      (fuel : ℕ) (queue : List (List Text)) (sizes : Sizes) (r : Run V) (o : Outcome V E)
      → embed_loop p count fuel queue sizes r ≡ some o
      → Shrinks sizes o.sizes
  unfolding embed_loop
  embed_loop-Shrinks fuel [] sizes r o h = Shrinks-some sizes o _ h (Shrinks-refl sizes)
  embed_loop-Shrinks zero (b ∷ queue) sizes r o h = cc
  embed_loop-Shrinks (suc fuel) (b ∷ queue) sizes r o h =
      elim (Result-cases (p.embed_batch_for r.api_calls b)) [
        | inl (vectors, e) ↦
            embed_loop-Shrinks fuel queue sizes (answered p count b vectors r) o
              (rw (e, embed_loop) at h)
        | inr (er, e) ↦ elim (Bool-cases (ltb 1 (length b) && p.is_batch_size_error er)) [
          | inl cut ↦
              let size = (length b + 1) / 2 in
              let later =
                embed_loop-Shrinks fuel (take (length b / 2) b ∷ drop (length b / 2) b ∷ queue)
                  (remember_batch_size p.batch_cache_key size sizes)
                  (record r { api_calls = r.api_calls + 1 }) o
                  (rw cut at (rw (e, embed_loop) at h)) in
              Shrinks-trans sizes _ o.sizes
                (remember_batch_size-Shrinks p.batch_cache_key size sizes) later
          | inr stop ↦
              Shrinks-some sizes o _ (rw stop at (rw (e, embed_loop) at h)) (Shrinks-refl sizes)
        ]
      ]

  -- Whatever the provider answers, `embed_inputs_adaptively` returns, with a result or with an
  -- error, and it does not raise the batch size that a later call works with, for any cache key.
  pub embed_inputs_adaptively-Shrinks :
      (sizes : Sizes) (texts : List Text)
      → (o : Outcome V E) × (embed_inputs_adaptively p count sizes texts ≡ some o)
        × Shrinks sizes o.sizes
  unfolding embed_inputs_adaptively
  embed_inputs_adaptively-Shrinks sizes [] =
      (record { sizes = sizes; result = ok empty_run }, refl, Shrinks-refl sizes)
  embed_inputs_adaptively-Shrinks sizes (t ∷ ts) =
      let texts = t ∷ ts in
      let size = working_batch_size p.batch_cache_key sizes (length texts) in
      let pos = (working_batch_size_bounds p.batch_cache_key sizes (length texts)).0 in
      let queue = chunks (length texts) size texts in
      let whole = concat-chunks (length texts) size texts pos (omega arith) in
      let (o, run) =
        embed_loop-Returns p count (2 * length texts) queue sizes empty_run
          (All-map (λ b h. h.0) queue (chunks-length (length texts) size texts pos))
          (omega (arith, cost-le queue, ap (λ u. 2 * length u) whole)) in
      (o, run, embed_loop-Shrinks (2 * length texts) queue sizes empty_run o run)
