-- ===== src/Chunker/Document/Total.antt =====
-- `chunk_document` always returns, and its chunks are numbered.
use markdown_vdb.Base.{ℕ, ◌<◌, List, [], ◌∷◌, ◌≡◌, arith, Text, some, length}
use markdown_vdb.Parser.{MarkdownFile, Heading}
use markdown_vdb.PathUtil.{to_slash}
use markdown_vdb.Chunker.{Chunk, Section, Tokenizer, LineRatio}
use markdown_vdb.Chunker.Sections.{sections_of, or_empty_section}
use markdown_vdb.Chunker.Windows.{IsNumbered}
use markdown_vdb.Chunker.Numbered.{chunks_of_sections-IsNumbered}
use markdown_vdb.Chunker.Document.{chunk_document}

one_section : (ss : List Section) → 0 < length (or_empty_section ss)
unfolding or_empty_section
one_section [] = omega arith
one_section (s ∷ ss) = omega arith

sections_of_pos : (body : Text) (hs : List Heading) → 0 < length (sections_of body hs)
unfolding sections_of
sections_of_pos body hs = one_section _

-- For every file, tokenizer and limits, `chunk_document` returns at least one chunk, and its chunks
-- have the indices 0, 1, 2 and so on in order, each with the identifier `path#index`.
pub chunk_document-IsNumbered :
    {Token : Type 0} (tokenizer : Tokenizer Token) (ratio : LineRatio) (file : MarkdownFile)
    (max_tokens overlap_tokens : ℕ)
    → (chunks : List Chunk) × (chunk_document tokenizer ratio file max_tokens overlap_tokens
        ≡ some chunks)
      × IsNumbered (to_slash file.path) 0 chunks
      × (0 < length chunks)
unfolding chunk_document
chunk_document-IsNumbered tokenizer ratio file max_tokens overlap_tokens =
    let ss = sections_of file.body file.headings in
    let (chunks, made, numbered, more) =
      chunks_of_sections-IsNumbered tokenizer ratio file max_tokens overlap_tokens ss 0 in
    (chunks, made, numbered, omega (arith, sections_of_pos file.body file.headings))
