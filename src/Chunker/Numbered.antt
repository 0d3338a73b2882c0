-- ===== src/Chunker/Numbered.antt =====
-- The chunks of the sections are numbered through the document.
use markdown_vdb.Base.{
  ℕ, ◌+◌, ◌<◌, ◌≤◌, List, [], ◌∷◌, ◌++◌, ◌≡◌, refl, inl, inr, arith, Text, leb, Bool-cases, leb→lt,
  some, length, length-append,
}
use markdown_vdb.Base.Strings.{codes, join}
use markdown_vdb.Parser.{MarkdownFile}
use markdown_vdb.PathUtil.{to_slash}
use markdown_vdb.Chunker.{
  Chunk, Section, Tokenizer, LineRatio, count_tokens, section_chunks, whole_chunk,
  chunks_of_sections, stride_of, window_chunk,
}
use markdown_vdb.Chunker.Windows.{
  IsNumbered, IsNumbered-append, sub_split_section-Covers, from_starts, total_of,
  length-from_starts,
}

module _ {Token : Type 0} (tokenizer : Tokenizer Token) (ratio : LineRatio) (file : MarkdownFile)
    (max_tokens overlap_tokens : ℕ) where
  abbrev path : Text
  path = to_slash file.path

  -- One chunk at least for a section, numbered from `idx` on.
  section_chunks-IsNumbered :
      (s : Section) (idx : ℕ)
      → (cs : List Chunk) × (section_chunks tokenizer ratio file max_tokens overlap_tokens s idx
          ≡ some (cs, idx + length cs))
        × IsNumbered path idx cs
        × (0 < length cs)
  unfolding section_chunks whole_chunk count_tokens
  section_chunks-IsNumbered s idx =
      let tokens = count_tokens tokenizer ratio (join (codes "\n") s.lines) in
      elim (Bool-cases (leb tokens max_tokens)) [
        | inl e ↦ (whole_chunk tokenizer ratio file s idx ∷ [], rw e, (refl, refl, tt), omega arith)
        | inr e ↦
            let c =
              sub_split_section-Covers tokenizer ratio s path max_tokens overlap_tokens idx
                (omega (arith, leb→lt tokens max_tokens e)) in
            let stride = stride_of max_tokens overlap_tokens in
            let n_is =
              length-from_starts tokenizer ratio s path max_tokens overlap_tokens stride c.n 0
                idx in
            (
              from_starts (window_chunk tokenizer ratio s path max_tokens) max_tokens stride
                  (total_of tokenizer ratio s path max_tokens overlap_tokens) c.n 0 idx,
              rw (e, n_is) c.returns,
              c.numbered,
              omega (arith, n_is, c.one),
            )
      ]

  -- As many chunks as sections, at least.
  pub chunks_of_sections-IsNumbered :
      (ss : List Section) (idx : ℕ)
      → (cs : List Chunk) × (chunks_of_sections tokenizer ratio file max_tokens overlap_tokens ss
            idx
          ≡ some cs)
        × IsNumbered path idx cs
        × (length ss ≤ length cs)
  unfolding chunks_of_sections
  chunks_of_sections-IsNumbered [] idx = ([], refl, tt, omega arith)
  chunks_of_sections-IsNumbered (s ∷ ss) idx =
      let (cs, made, numbered, pos) = section_chunks-IsNumbered s idx in
      let (ds, rest, later, more) = chunks_of_sections-IsNumbered ss (idx + length cs) in
      (
        cs ++ ds,
        rw (made, chunks_of_sections) (rw (rest, chunks_of_sections)),
        IsNumbered-append path idx cs ds numbered later,
        omega (arith, length-append cs ds),
      )
