-- ===== src/Chunker.antt =====
-- src/chunker.rs: a document is cut at its headings, and a section that is too long into windows
-- of tokens.
pub mod Windows
pub mod Numbered
pub mod Sections
pub mod Document
mod Tests
use package.markdown_vdb.Base.{
  ℕ, zero, suc, ◌+◌, ◌*◌, ◌-◌, min, max, Bool, true, false, ◌&&◌, ◌||◌, not, List, [], ◌∷◌, ◌++◌,
  map, ◌==◌, ltb, leb, if◌then◌else◌, Option, none, some, Text, is_empty, length, take, drop,
}
use mathlib.Core.List.{reverse}
use package.markdown_vdb.Base.Strings.{codes, decimal, split, join, trim, byte_len}
use package.markdown_vdb.Parser.{MarkdownFile, Heading}
use package.markdown_vdb.PathUtil.{to_slash}

pub record Chunk : Type 0 where
  pub id : Text
  pub source_path : Text
  pub heading_hierarchy : List Text
  pub content : Text
  pub start_line : ℕ
  pub end_line : ℕ
  pub chunk_index : ℕ
  pub is_sub_split : Bool

pub record Section : Type 0 where
  pub heading_hierarchy : List Text
  pub lines : List Text
  pub start_line : ℕ
  pub end_line : ℕ

-- The tokenizer of `tiktoken_rs`; `decode` fails on tokens that do not make up whole characters.
pub record Tokenizer (Token : Type 0) : Type 0 where
  pub encode_ordinary : Text → List Token
  pub decode : List Token → Option Text

-- The two floating-point expressions `(a as f64 / b as f64 * c as f64)`, rounded to a line.
pub record LineRatio : Type 0 where
  pub floor : ℕ → ℕ → ℕ → ℕ
  pub ceil : ℕ → ℕ → ℕ → ℕ

-- A chunk's identifier. (Below, `saturating_sub` is the truncated subtraction of ℕ.)
abbrev pub chunk_id : Text → ℕ → Text
chunk_id source_path idx = source_path ++ (codes "#" ++ decimal idx)

abbrev pub or_text : Option Text → Text
or_text none = []
or_text (some t) = t

abbrev pub prepend : Chunk → Option (List Chunk × ℕ) → Option (List Chunk × ℕ)
prepend c none = none
prepend c (some (chunks, next)) = some (c ∷ chunks, next)

-- The stride is at least one if `max_tokens` is.
pub stride_of : ℕ → ℕ → ℕ
stride_of max_tokens overlap_tokens =
    if ltb overlap_tokens max_tokens then max_tokens - overlap_tokens else max max_tokens 1

-- The `while` loop over `chunk_of`, which makes the chunk of an index and a start; the result
-- is the chunks and the next index, and `none` says that the fuel ran out.
pub split_loop : (ℕ → ℕ → Chunk) → ℕ → ℕ → ℕ → ℕ → ℕ → ℕ → Option (List Chunk × ℕ)
split_loop chunk_of max_tokens stride total zero start idx = none
split_loop chunk_of max_tokens stride total (suc fuel) start idx =
    let last = some (chunk_of idx start ∷ [], idx + 1) in
    let more =
      prepend (chunk_of idx start)
        (split_loop chunk_of max_tokens stride total fuel (start + stride) (idx + 1)) in
    let round = if leb total (min (start + max_tokens) total) then last else more in
    if ltb start total then round else some ([], idx)

module _ {Token : Type 0} (tokenizer : Tokenizer Token) (ratio : LineRatio) where
  pub count_tokens : Text → ℕ
  count_tokens text = length (tokenizer.encode_ordinary text)

  -- A token boundary can split a character; then the text is cut by characters.
  unfoldable pub truncate_to_tokens : Text → ℕ → Text
  truncate_to_tokens text max_tokens =
      let tokens = tokenizer.encode_ordinary text in
      let cut : Text = elim (tokenizer.decode (take max_tokens tokens)) [
        | none ↦ take (max_tokens * 4) text
        | some t ↦ t
      ] in
      if leb (length tokens) max_tokens then text else cut

  -- One round of the loop of `sub_split_section`: the chunk of the window from `start`.
  pub window_chunk : Section → Text → ℕ → ℕ → ℕ → Chunk
  unfolding byte_len
  window_chunk section source_path max_tokens idx start =
      let full_content = join (codes "\n") section.lines in
      let tokens = tokenizer.encode_ordinary full_content in
      let end = min (start + max_tokens) (length tokens) in
      let content = or_text (tokenizer.decode (take (end - start) (drop start tokens))) in
      let total_lines = length section.lines in
      let total_chars = byte_len full_content in
      let chars_before =
        (if start == 0 then 0 else byte_len (or_text (tokenizer.decode (take start tokens)))) in
      let approx_start_line =
        (if ltb 0 total_chars then ratio.floor chars_before total_chars total_lines else 0) in
      let chars_end = chars_before + byte_len content in
      let approx_end_line =
        (if ltb 0 total_chars then ratio.ceil chars_end total_chars total_lines else 0) in
      let start_line = section.start_line + min approx_start_line (total_lines - 1) in
      let end_line =
        section.start_line + max (min approx_end_line total_lines - 1) approx_start_line in
      record {
        id = chunk_id source_path idx;
        source_path = source_path;
        heading_hierarchy = section.heading_hierarchy;
        content = content;
        start_line = start_line;
        end_line = max end_line start_line;
        chunk_index = idx;
        is_sub_split = true;
      }

  -- Every round moves on by at least one token, so a round for each token, and one more, is
  -- enough.
  unfoldable pub sub_split_section : Section → Text → ℕ → ℕ → ℕ → Option (List Chunk × ℕ)
  unfolding window_chunk split_loop stride_of
  sub_split_section section source_path max_tokens overlap_tokens chunk_index =
      let total = length (tokenizer.encode_ordinary (join (codes "\n") section.lines)) in
      let chunks =
        split_loop (window_chunk section source_path max_tokens) max_tokens
          (stride_of max_tokens overlap_tokens) total (suc total) 0 chunk_index in
      if total == 0 then some ([], chunk_index) else chunks

  whole_chunk : MarkdownFile → Section → ℕ → Chunk
  unfolding to_slash
  whole_chunk file section idx = record {
    id = chunk_id (to_slash file.path) idx;
    source_path = file.path;
    heading_hierarchy = section.heading_hierarchy;
    content = join (codes "\n") section.lines;
    start_line = section.start_line;
    end_line = section.end_line;
    chunk_index = idx;
    is_sub_split = false;
  }

  -- What the loop over the sections makes of one.
  pub section_chunks : MarkdownFile → ℕ → ℕ → Section → ℕ → Option (List Chunk × ℕ)
  unfolding sub_split_section whole_chunk count_tokens to_slash
  section_chunks file max_tokens overlap_tokens section idx =
      if leb (count_tokens (join (codes "\n") section.lines)) max_tokens
      then some (whole_chunk file section idx ∷ [], idx + 1)
      else sub_split_section section (to_slash file.path) max_tokens overlap_tokens idx

  unfoldable pub chunks_of_sections : MarkdownFile → ℕ → ℕ → List Section → ℕ → Option (List Chunk)
  unfolding section_chunks
  chunks_of_sections file max_tokens overlap_tokens [] idx = some []
  chunks_of_sections file max_tokens overlap_tokens (s ∷ ss) idx =
      elim (section_chunks file max_tokens overlap_tokens s idx) [
        | none ↦ none
        | some (chunks, next) ↦ elim (chunks_of_sections file max_tokens overlap_tokens ss next) [
          | none ↦ none
          | some rest ↦ some (chunks ++ rest)
        ]
      ]
