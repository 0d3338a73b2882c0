-- ===== src/Chunker/Windows.antt =====
-- The windows of a section that is too long: the loop ends, numbers its chunks, and leaves out no
-- token, in `sub_split_section` of src/chunker.rs.
pub mod Rejoined
use markdown_vdb.Base.{
  map, take, drop, none, ◌⊎◌, ℕ, zero, suc, ◌+◌, ◌-◌, ◌*◌, ◌<◌, ◌≤◌, false, List, [], ◌∷◌, ◌++◌,
  ◌≡◌, refl, sym, ap, inl, inr, arith, Text, ltb, leb, ◌==◌, Bool-cases, leb→le, leb→lt, ltb→lt,
  ltb→le, some, length,
}
use markdown_vdb.Base.Strings.{codes, join}
use markdown_vdb.Chunker.Windows.Rejoined.{take_cut, windows, rejoin, rejoin-windows}
use markdown_vdb.Chunker.{
  Chunk, Section, or_text, Tokenizer, LineRatio, chunk_id, stride_of, window_chunk, split_loop,
  sub_split_section,
}

-- Chunks with consecutive indices from `idx`, and the identifiers that belong to them.
abbrev pub IsNumbered : Text → ℕ → List Chunk → Type 0
IsNumbered path idx [] = Unit
IsNumbered path idx (c ∷ cs) =
    (c.chunk_index ≡ idx) × (c.id ≡ chunk_id path idx) × IsNumbered path (idx + 1) cs

pub IsNumbered-append :
    (path : Text) (idx : ℕ) (cs ds : List Chunk)
    → IsNumbered path idx cs
    → IsNumbered path (idx + length cs) ds
    → IsNumbered path idx (cs ++ ds)
IsNumbered-append path idx [] ds h k = let e : idx + 0 ≡ idx = omega arith in rw e at k
IsNumbered-append path idx (c ∷ cs) ds h k =
    let e : idx + suc (length cs) ≡ (idx + 1) + length cs = omega arith in
    (h.0, h.1, IsNumbered-append path (idx + 1) cs ds h.2 (rw e at k))

module _ (chunk_of : ℕ → ℕ → Chunk) (max_tokens stride total : ℕ) where
  -- `n` chunks, whose windows start at `start` and every `stride` tokens behind it.
  abbrev pub from_starts : ℕ → ℕ → ℕ → List Chunk
  from_starts zero start idx = []
  from_starts (suc n) start idx = chunk_of idx start ∷ from_starts n (start + stride) (idx + 1)

  -- The loop makes `n` chunks. Each window starts at a token, and if windows are as long as the
  -- stride the last one reaches the end.
  pub record Splits (fuel start idx : ℕ) : Type 0 where
    pub n : ℕ
    pub returns :
        split_loop chunk_of max_tokens stride total fuel start idx
        ≡ some (from_starts n start idx, idx + n)
    pub one : start < total → 0 < n
    pub begins : (k : ℕ) → k < n → start + k * stride < total
    pub ends : stride ≤ max_tokens → (m : ℕ) → n ≡ suc m → total ≤ start + m * stride + max_tokens

  split_loop_over :
      (fuel start idx : ℕ)
      → start < total
      → total ≤ start + max_tokens
      → Splits (suc fuel) start idx
  unfolding split_loop
  split_loop_over fuel start idx h k = record {
    n = 1;
    returns = ground arith;
    one = λ _. omega arith;
    begins = λ j hj. first j hj;
    ends = λ _ m e. omega arith;
  }
    where
      first : (j : ℕ) → j < 1 → start + j * stride < total
      first zero hj = omega arith
      first (suc j) hj = absurd (omega arith)

  split_loop_next :
      (fuel start idx : ℕ)
      → start < total
      → start + max_tokens < total
      → Splits fuel (start + stride) (idx + 1)
      → Splits (suc fuel) start idx
  unfolding split_loop
  split_loop_next fuel start idx h k s = record {
    n = suc s.n;
    returns = ground (arith, s.returns);
    one = λ _. omega arith;
    begins = begins;
    ends = ends;
  }
    where
      begins : (j : ℕ) → j < suc s.n → start + j * stride < total
      begins zero hj = omega arith
      begins (suc j) hj = omega (arith, s.begins j (omega arith))

      last : (n : ℕ) → n ≡ s.n → stride ≤ max_tokens → total ≤ start + n * stride + max_tokens
      last zero e le = absurd (omega (arith, s.one (omega arith)))
      last (suc m) e le = omega (arith, s.ends le m (sym e))

      ends :
          stride ≤ max_tokens → (m : ℕ) → suc s.n ≡ suc m → total ≤ start + m * stride + max_tokens
      ends le m e = last m (omega arith) le

  split_loop-Splits :
      (fuel start idx : ℕ) → 0 < stride → total - start < fuel → Splits fuel start idx
  split_loop-Splits zero start idx hs hf = absurd (omega arith)
  split_loop-Splits (suc fuel) start idx hs hf = elim (Bool-cases (ltb start total)) [
    | inr e ↦ record {
      n = 0;
      returns = unfold split_loop in rw e (ground arith);
      one = λ h. absurd (omega (arith, ltb→le start total e));
      begins = λ k hk. absurd (omega arith);
      ends = λ _ m e'. absurd (omega arith);
    }
    | inl e ↦
        let more = ltb→lt start total e in
        elim (Bool-cases (leb total (start + max_tokens))) [
          | inl done ↦ split_loop_over fuel start idx more (leb→le total (start + max_tokens) done)
          | inr next ↦
              split_loop_next fuel start idx more (leb→lt total (start + max_tokens) next)
                (split_loop-Splits fuel (start + stride) (idx + 1) hs (omega arith))
        ]
  ]

stride_of_pos : (max_tokens overlap_tokens : ℕ) → 0 < stride_of max_tokens overlap_tokens
unfolding stride_of
stride_of_pos max_tokens overlap_tokens = ground arith

stride_of-le :
    (max_tokens overlap_tokens : ℕ)
    → 0 < max_tokens
    → stride_of max_tokens overlap_tokens ≤ max_tokens
unfolding stride_of
stride_of-le max_tokens overlap_tokens h = ground arith

module _ {Token : Type 0} (tokenizer : Tokenizer Token) (ratio : LineRatio) (section : Section)
    (path : Text) (max_tokens overlap_tokens : ℕ) where
  abbrev pub tokens_of : List Token
  tokens_of = tokenizer.encode_ordinary (join (codes "\n") section.lines)

  abbrev pub total_of : ℕ
  total_of = length tokens_of

  abbrev pub chunk_at : ℕ → ℕ → Chunk
  chunk_at = window_chunk tokenizer ratio section path max_tokens

  from_starts-IsNumbered :
      (stride n start idx : ℕ)
      → IsNumbered path idx (from_starts chunk_at max_tokens stride total_of n start idx)
  unfolding window_chunk
  from_starts-IsNumbered stride zero start idx = tt
  from_starts-IsNumbered stride (suc n) start idx =
      (refl, refl, from_starts-IsNumbered stride n (start + stride) (idx + 1))

  pub length-from_starts :
      (stride n start idx : ℕ)
      → length (from_starts chunk_at max_tokens stride total_of n start idx) ≡ n
  length-from_starts stride zero start idx = refl
  length-from_starts stride (suc n) start idx =
      ap suc (length-from_starts stride n (start + stride) (idx + 1))

  -- The content of each chunk is the decoded window.
  from_starts-content :
      (stride n start idx : ℕ)
      → map (λ c. c.content) (from_starts chunk_at max_tokens stride total_of n start idx)
        ≡ map (λ w. or_text (tokenizer.decode w)) (windows max_tokens stride tokens_of n start)
  unfolding window_chunk
  from_starts-content stride zero start idx = refl
  from_starts-content stride (suc n) start idx = rw (take_cut max_tokens start tokens_of) (
      ap (λ cs. or_text (tokenizer.decode (take max_tokens (drop start tokens_of))) ∷ cs)
        (from_starts-content stride n (start + stride) (idx + 1)))

  -- What `sub_split_section` makes of a section with tokens: one chunk for each of `n` windows,
  -- `stride` tokens apart.
  pub record Covers (idx : ℕ) : Type 0 where
    pub n : ℕ
    pub returns :
        sub_split_section tokenizer ratio section path max_tokens overlap_tokens idx
        ≡ some (
          from_starts chunk_at max_tokens (stride_of max_tokens overlap_tokens) total_of n 0 idx,
          idx + n,
        )
    pub one : 0 < n
    pub numbered :
        IsNumbered path idx
          (from_starts chunk_at max_tokens (stride_of max_tokens overlap_tokens) total_of n 0 idx)
    pub begins : (k : ℕ) → k < n → k * stride_of max_tokens overlap_tokens < total_of
    pub decoded :
        map
          (λ c. c.content)
          (from_starts chunk_at max_tokens (stride_of max_tokens overlap_tokens) total_of n 0 idx)
        ≡ map
            (λ w. or_text (tokenizer.decode w))
            (windows max_tokens (stride_of max_tokens overlap_tokens) tokens_of n 0)
    pub rejoined :
        (max_tokens ≡ 0)
        ⊎ (rejoin max_tokens
              (stride_of max_tokens overlap_tokens)
              tokens_of
              (windows max_tokens (stride_of max_tokens overlap_tokens) tokens_of n 0)
            ≡ tokens_of)

  -- For a section with tokens and any limits, `sub_split_section` ends, with at least one chunk;
  -- the chunks are numbered from the given index on; the chunks' contents are the decoded windows,
  -- each of the tokens from its start on, as many as the limit allows; every window begins at a
  -- token; and unless the limit is zero, the windows, each up to the start of the next, are
  -- together the tokens of the section, none lost and none twice.
  pub sub_split_section-Covers : (idx : ℕ) → 0 < total_of → Covers idx
  unfolding sub_split_section
  sub_split_section-Covers idx pos =
      let stride = stride_of max_tokens overlap_tokens in
      let s =
        split_loop-Splits chunk_at max_tokens stride total_of (suc total_of) 0 idx
          (stride_of_pos max_tokens overlap_tokens) (omega arith) in
      let some_tokens : total_of == 0 ≡ false = ground arith in
      record {
        n = s.n;
        returns = rw some_tokens s.returns;
        one = s.one pos;
        numbered = from_starts-IsNumbered stride s.n 0 idx;
        begins = λ k hk. omega (arith, s.begins k hk);
        decoded = from_starts-content stride s.n 0 idx;
        rejoined = whole s.n s refl;
      }
    where
      whole :
          (n : ℕ)
          (s : Splits chunk_at max_tokens
            (stride_of max_tokens overlap_tokens)
            total_of
            (suc total_of)
            0
            idx)
          → n ≡ s.n
          → (max_tokens ≡ 0)
            ⊎ (rejoin max_tokens
                  (stride_of max_tokens overlap_tokens)
                  tokens_of
                  (windows max_tokens (stride_of max_tokens overlap_tokens) tokens_of n 0)
                ≡ tokens_of)
      whole zero s e = absurd (omega (arith, s.one pos))
      whole (suc m) s e = elim (Bool-cases (max_tokens == 0)) [
        | inl nothing ↦ inl (ground arith)
        | inr some_limit ↦
            let le = stride_of-le max_tokens overlap_tokens (ground arith) in
            inr (
              rejoin-windows max_tokens (stride_of max_tokens overlap_tokens) tokens_of m 0 le
                (omega (arith, s.ends le m (sym e))))
      ]
